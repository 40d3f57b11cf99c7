-- ===== src/Runtime/Exec/Laws.antt =====
-- What the success of an action says of its parts.
use tds_wasm_ai.Common.{◌≡◌, refl, String, Result, ok, err}
use tds_wasm_ai.Runtime.State.{Store}
use tds_wasm_ai.Runtime.Exec.{Failure, Exec, with_context, context, resume, ◌>>=◌}

module _ {W A B : Type 0} where
  resume-eq-ok :
      (r : Result Failure A) (f : A → Exec W B) (s : Store W) (b : B)
      → (resume r f s).0 ≡ ok b
      → (a : A) × (r ≡ ok a) × ((f a s).0 ≡ ok b)
  resume-eq-ok (ok a) f s b h = (a, refl, h)
  resume-eq-ok (err e) f s b h = cc

  pub >>=-eq-ok :
      (m : Exec W A) (f : A → Exec W B) (s : Store W) (b : B)
      → ((m >>= f) s).0 ≡ ok b
      → (a : A) × ((m s).0 ≡ ok a) × ((f a (m s).1).0 ≡ ok b)
  unfolding ◌>>=◌
  >>=-eq-ok m f s b h = resume-eq-ok (m s).0 f (m s).1 b h

module _ {A : Type 0} where
  relabelled :
      (message : String) (r : Result Failure A) (a : A)
      → (elim r [ ok a ↦ ok a | err f ↦ err (with_context message f) ]) ≡ ok a
      → r ≡ ok a
  relabelled message (ok b) a h = h
  relabelled message (err e) a h = cc

  pub context-eq-ok :
      {W : Type 0} (message : String) (m : Exec W A) (s : Store W) (a : A)
      → (context message m s).0 ≡ ok a
      → (m s).0 ≡ ok a
  context-eq-ok message m s a h = relabelled message (m s).0 a h
