-- ===== src/Store/Prog.antt =====
-- The calls that src/fs_lib.c makes of src/alloc.h, of the client's
-- socket and of `time`. A function of that file is a program: a tree of such calls.
use cs356_mini_file_system.Utils.Text.{Text}
use cs356_mini_file_system.Base.{List, Option, ℕ}

-- `fault` is undefined behaviour: a null pointer dereferenced, an array left, a value that a
-- function did not return. `out_of_fuel` marks a recursion cut off by its bound.
pub data Prog (A : Type 0) : Type 0 where
  pure : A → Prog A
  fault : Prog A
  out_of_fuel : Prog A
  on_state : ℕ → (ℕ → Prog A) → Prog A
  on_free_id : ℕ → (ℕ → Prog A) → Prog A
  on_release : ℕ → Prog A → Prog A
  on_read : ℕ → (Option (List ℕ) → Prog A) → Prog A
  on_write : ℕ → List ℕ → Prog A → Prog A
  on_time : (ℕ → Prog A) → Prog A
  on_stray : (List ℕ → Prog A) → Prog A
  on_recv : (Option Text → Prog A) → Prog A
  on_send : Text → Prog A → Prog A

infixl 5 ◌>>=◌ ◌>>◌
abbrev pub ◌>>=◌ : {A B : Type 0} → Prog A → (A → Prog B) → Prog B
pure a >>= f = f a
fault >>= f = fault
out_of_fuel >>= f = out_of_fuel
on_state id k >>= f = on_state id (λ s. k s >>= f)
on_free_id s k >>= f = on_free_id s (λ id. k id >>= f)
on_release id m >>= f = on_release id (m >>= f)
on_read id k >>= f = on_read id (λ z. k z >>= f)
on_write id z m >>= f = on_write id z (m >>= f)
on_time k >>= f = on_time (λ t. k t >>= f)
on_stray k >>= f = on_stray (λ b. k b >>= f)
on_recv k >>= f = on_recv (λ t. k t >>= f)
on_send t m >>= f = on_send t (m >>= f)

abbrev pub ◌>>◌ : {B : Type 0} → Prog (Unit {0}) → Prog B → Prog B
m >> k = m >>= λ _. k

-- alloc.h
abbrev pub get_state : ℕ → Prog ℕ
get_state id = on_state id pure

abbrev pub get_free_id : ℕ → Prog ℕ
get_free_id state = on_free_id state pure

abbrev pub set_free_id : ℕ → Prog (Unit {0})
set_free_id id = on_release id (pure tt)

abbrev pub read_zone : ℕ → Prog (Option (List ℕ))
read_zone id = on_read id pure

abbrev pub write_zone : ℕ → List ℕ → Prog (Unit {0})
write_zone id zone = on_write id zone (pure tt)

-- `(unsigned long)time(NULL)`
abbrev pub time : Prog ℕ
time = on_time pure

-- what the stack holds behind a local variable that is read past its end
abbrev pub stray : Prog (List ℕ)
stray = on_stray pure

-- `get_msg(sock)` and `send_msg(sock, msg)` on the client's socket
abbrev pub get_msg : Prog (Option Text)
get_msg = on_recv pure

abbrev pub send_msg : Text → Prog (Unit {0})
send_msg msg = on_send msg (pure tt)

-- The outcome of a run from a state.
pub data Outcome (S A : Type 0) : Type 0 where
  ok : A → S → Outcome S A
  undefined : Outcome S A
  unfinished : Outcome S A

abbrev pub and_then : {S A B : Type 0} → Outcome S A → (A → S → Outcome S B) → Outcome S B
and_then (ok a s) f = f a s
and_then undefined f = undefined
and_then unfinished f = unfinished
