-- ===== src/Base.antt =====
-- The names that the modules share: the libraries', passed on, and those of the children.
pub mod Tests
pub mod Eq
pub mod Dict
pub mod Int
pub mod Lists
pub mod Text
pub use Tests.*
pub use Prim.Native.Nat.{ℕ, zero, suc, ◌+◌, ◌-◌, ◌*◌, ◌/◌, ◌%◌, ◌^◌, ◌≤◌, ◌<◌, max}
pub use Prim.Native.String.{String, ◌++◌ as str_append}
pub use mathlib.Core.Path.{◌≡◌, refl, sym, ap, ◌∙◌, subst}
pub use mathlib.Core.Logic.{◌≢◌, ◌↔◌, ◌⊎◌, inl, inr}
pub use mathlib.Core.Bool.{Bool, true, false, not, ◌&&◌, ◌||◌, false≢true}
pub use mathlib.Core.Option.{Option, none, some}
pub use mathlib.Core.List.{List, [], ◌∷◌, ◌++◌, map}
pub use native.Mathlib.Omega.{arith}
pub use text.Mathlib.Text.{◌==◌ as str_eq}
pub use text.Mathlib.TextEquality.{eq_iff as str_eq_iff}

-- The kinds of `eva_common::Error` that the modelled code makes; the messages are left out.
pub data Error : Type 0 where
  not_found not_ready not_implemented failed duplicate invalid_data : Error
  core_error timed_out busy aborted access io_error invalid_params : Error

pub data EResult {ℓ} (A : Type ℓ) : Type ℓ where
  ok : A → EResult A
  err : Error → EResult A

infixl 5 ◌>>=◌ ◌>>◌
abbrev pub ◌>>=◌ {ℓ κ} : {A : Type ℓ} {B : Type κ} → EResult A → (A → EResult B) → EResult B
ok a >>= f = f a
err e >>= f = err e

abbrev pub ◌>>◌ {ℓ} : {B : Type ℓ} → EResult (Unit {0}) → EResult B → EResult B
m >> k = m >>= λ _. k

abbrev pub or_else {ℓ} : {A : Type ℓ} → Option A → A → A
or_else none d = d
or_else (some a) d = a

abbrev pub ok_or {ℓ} : {A : Type ℓ} → Option A → Error → EResult A
ok_or none e = err e
ok_or (some a) e = ok a
