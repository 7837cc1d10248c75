-- ===== src/Store/Whole.antt =====
-- Programs that write whole zones.
use cs356_mini_file_system.Store.ReadOnly.{ReadOnly}
use cs356_mini_file_system.Utils.Text.{Text}
use cs356_mini_file_system.Base.{Bool, List, Option, false, length, none, refl, some, true, ℕ, ◌≡◌}
use cs356_mini_file_system.Alloc.Cache.{Zone}
use cs356_mini_file_system.Store.Prog.{
  Prog, fault, on_free_id, on_read, on_recv, on_release, on_send, on_state, on_stray, on_time,
  on_write, out_of_fuel, pure, ◌>>=◌,
}

-- Every zone that the program writes has 64 bytes, if those that it reads have, and every result
-- that it ends with is as `P` says.
unfoldable pub Yields : {A : Type 0} → (A → Type 0) → Prog A → Type 0
Yields P (pure a) = P a
Yields P fault = Unit
Yields P out_of_fuel = Unit
Yields P (on_state id next) = (state : ℕ) → Yields P (next state)
Yields P (on_free_id state next) = (id : ℕ) → Yields P (next id)
Yields P (on_release id next) = Yields P next
Yields P (on_read id next) =
    Yields P (next none) × ((zone : Zone) → length zone ≡ 64 → Yields P (next (some zone)))
Yields P (on_write id zone next) = (length zone ≡ 64) × Yields P next
Yields P (on_time next) = (now : ℕ) → Yields P (next now)
Yields P (on_stray next) = (bytes : List ℕ) → Yields P (next bytes)
Yields P (on_recv next) = (msg : Option Text) → Yields P (next msg)
Yields P (on_send msg next) = Yields P next

-- Every zone that the program writes has 64 bytes.
abbrev pub WritesWhole : {A : Type 0} → Prog A → Type 0
WritesWhole p = Yields (λ a. Unit {0}) p

pub Yields-bind :
    {A B : Type 0} (P : A → Type 0) (Q : B → Type 0) (m : Prog A) (f : A → Prog B)
    → Yields P m
    → ((a : A) → P a → Yields Q (f a))
    → Yields Q (m >>= f)
unfolding Yields
Yields-bind P Q (pure a) f h k = k a h
Yields-bind P Q fault f h k = tt
Yields-bind P Q out_of_fuel f h k = tt
Yields-bind P Q (on_state id next) f h k = λ s. Yields-bind P Q (next s) f (h s) k
Yields-bind P Q (on_free_id s next) f h k = λ id. Yields-bind P Q (next id) f (h id) k
Yields-bind P Q (on_release id next) f h k = Yields-bind P Q next f h k
Yields-bind P Q (on_read id next) f h k = (
  Yields-bind P Q (next none) f h.0 k,
  λ zone full. Yields-bind P Q (next (some zone)) f (h.1 zone full) k,
)
Yields-bind P Q (on_write id zone next) f h k = (h.0, Yields-bind P Q next f h.1 k)
Yields-bind P Q (on_time next) f h k = λ now. Yields-bind P Q (next now) f (h now) k
Yields-bind P Q (on_stray next) f h k = λ bytes. Yields-bind P Q (next bytes) f (h bytes) k
Yields-bind P Q (on_recv next) f h k = λ msg. Yields-bind P Q (next msg) f (h msg) k
Yields-bind P Q (on_send msg next) f h k = Yields-bind P Q next f h k

module _ {A B : Type 0} where
  -- a program whose result does not matter, behind one whose result does
  pub after :
      (P : A → Type 0) (m : Prog A) (f : A → Prog B)
      → Yields P m
      → ((a : A) → P a → WritesWhole (f a))
      → WritesWhole (m >>= f)
  after P m f h k = Yields-bind P (λ b. Unit {0}) m f h k

  -- two programs whose results do not matter
  pub both :
      (m : Prog A) (f : A → Prog B)
      → WritesWhole m
      → ((a : A) → WritesWhole (f a))
      → WritesWhole (m >>= f)
  both m f h k = Yields-bind (λ a. Unit {0}) (λ b. Unit {0}) m f h (λ a t. k a)

-- the two branches of a test
pub Yields-either :
    {A : Type 0} (P : A → Type 0) (b : Bool) (m n : Prog A)
    → (b ≡ false → Yields P m)
    → (b ≡ true → Yields P n)
    → Yields P (elim b [ false ↦ m | true ↦ n ])
Yields-either P false m n h k = h refl
Yields-either P true m n h k = k refl

pub either :
    {A : Type 0} (b : Bool) (m n : Prog A)
    → (b ≡ false → WritesWhole m)
    → (b ≡ true → WritesWhole n)
    → WritesWhole (elim b [ false ↦ m | true ↦ n ])
either b m n h k = Yields-either (λ a. Unit {0}) b m n h k

pub ReadOnly-WritesWhole : {A : Type 0} (p : Prog A) → ReadOnly p → WritesWhole p
unfolding Yields ReadOnly
ReadOnly-WritesWhole (pure a) h = tt
ReadOnly-WritesWhole fault h = tt
ReadOnly-WritesWhole out_of_fuel h = tt
ReadOnly-WritesWhole (on_state id next) h = λ s. ReadOnly-WritesWhole (next s) (h s)
ReadOnly-WritesWhole (on_read id next) h = (
  ReadOnly-WritesWhole (next none) (h none),
  λ zone full. ReadOnly-WritesWhole (next (some zone)) (h (some zone)),
)
ReadOnly-WritesWhole (on_stray next) h = λ bytes. ReadOnly-WritesWhole (next bytes) (h bytes)
ReadOnly-WritesWhole (on_free_id _ _) h = absurd h
ReadOnly-WritesWhole (on_release _ _) h = absurd h
ReadOnly-WritesWhole (on_write _ _ _) h = absurd h
ReadOnly-WritesWhole (on_time _) h = absurd h
ReadOnly-WritesWhole (on_recv _) h = absurd h
ReadOnly-WritesWhole (on_send _ _) h = absurd h
