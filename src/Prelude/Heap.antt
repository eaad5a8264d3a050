-- ===== src/Prelude/Heap.antt =====
-- Objects at addresses: those that are alive, as a function that is `none` elsewhere.
use cs_system_lab.Prelude.Tests.{◌==◌, if◌then◌else◌, Bool-cases}
use Prim.Native.Nat.{ℕ}
use mathlib.Core.Path.{◌≡◌, refl}
use mathlib.Core.Logic.{◌≢◌, inl, inr}
use mathlib.Core.Option.{Option, none, some}
use mathlib.Core.Bool.{Bool, false}
use cs_system_lab.Prelude.Int.{ℤ, eq_int}
use native.Mathlib.Omega.{arith}

-- The heap with another content of one address.
abbrev pub at_address {ℓ} : {V : Type ℓ} → ℕ → Option V → (ℕ → Option V) → ℕ → Option V
at_address a o heap b = if a == b then o else heap b

-- The destructor of the object of a map's entry, if there is one.
abbrev pub destroyed {ℓ} : {V : Type ℓ} → Option ℕ → (ℕ → Option V) → ℕ → Option V
destroyed none heap = heap
destroyed (some a) heap = at_address a none heap

pub destroyed_keeps {ℓ} :
    {V : Type ℓ} (o : Option ℕ) (heap : ℕ → Option V) (a : ℕ)
    → o ≢ some a
    → destroyed o heap a ≡ heap a
destroyed_keeps none heap a h = refl
destroyed_keeps (some b) heap a h = elim (Bool-cases (b == a)) [
  | inl e ↦ absurd (h (ground arith))
  | inr e ↦ rw e refl
]

pub destroyed-some {ℓ} :
    {V : Type ℓ} (o : Option ℕ) (heap : ℕ → Option V) (a : ℕ) (x : V)
    → destroyed o heap a ≡ some x
    → (heap a ≡ some x) × o ≢ some a
destroyed-some none heap a x h = (h, λ e. absurd (cc))
destroyed-some (some b) heap a x h = (ground arith, λ e. ground arith)

-- A function with another value at one place.
abbrev pub at_fd {ℓ} : {V : Type ℓ} → ℤ → V → (ℤ → V) → ℤ → V
at_fd fd v f d = if eq_int fd d then v else f d

abbrev pub at_num {ℓ} : {V : Type ℓ} → ℕ → V → (ℕ → V) → ℕ → V
at_num l v f k = if l == k then v else f k

-- The channel of an entry, if there is one, is destroyed.
abbrev pub without : Option ℕ → (ℕ → Bool) → ℕ → Bool
without none alive = alive
without (some a) alive = at_num a false alive
