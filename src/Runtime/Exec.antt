-- ===== src/Runtime/Exec.antt =====
-- Actions on the store of a run that may fail, and the error values of the runtime (anyhow): a chain of
-- messages, the outermost first, and the trap at its root if the guest trapped.
pub mod Laws
use tds_wasm_ai.Common.{
  String, Bool, true, false, Option, none, some, List, [], ◌∷◌, Result, ok, err, map_err,
}
use tds_wasm_ai.Runtime.State.{Store}

-- The traps of the engine that the runtime names, and the text of any other.
pub data Trap : Type 0 where
  out_of_fuel interrupt unreachable_code_reached : Trap
  other : String → Trap

pub record Failure : Type 0 where
  pub trap : Option Trap
  pub chain : List String

-- `anyhow!` and `bail!`
abbrev pub failure : String → Failure
failure message = record { trap = none; chain = message ∷ [] }

-- `.context(message)`
abbrev pub with_context : String → Failure → Failure
with_context message f = record f { chain = message ∷ f.chain }

-- `.context(message)` on an outcome
abbrev pub in_context : {A : Type 0} → String → Result Failure A → Result Failure A
in_context message r = map_err (with_context message) r

abbrev pub Exec : Type 0 → Type 0 → Type 0
Exec W A = Store W → Result Failure A × Store W

module _ {W A : Type 0} where
  abbrev pub pure : A → Exec W A
  pure a s = (ok a, s)

  abbrev pub bail : Failure → Exec W A
  bail f s = (err f, s)

  abbrev pub lift : Result Failure A → Exec W A
  lift r s = (r, s)

  abbrev pub context : String → Exec W A → Exec W A
  context message m s =
      let (r, t) = m s in (elim r [ ok a ↦ ok a | err f ↦ err (with_context message f) ], t)

module _ {W A B : Type 0} where
  abbrev pub resume : Result Failure A → (A → Exec W B) → Exec W B
  resume (ok a) f s = f a s
  resume (err e) f s = (err e, s)

  infixl 5 ◌>>=◌ ◌>>◌
  unfoldable pub ◌>>=◌ : Exec W A → (A → Exec W B) → Exec W B
  ◌>>=◌ m f s = let (r, t) = m s in resume r f t

  abbrev pub ◌>>◌ : Exec W A → Exec W B → Exec W B
  m >> n = m >>= λ _. n

module _ {W : Type 0} where
  abbrev pub bail_if : Bool → String → Exec W (Unit {0})
  bail_if true message s = (err (failure message), s)
  bail_if false message s = (ok tt, s)
