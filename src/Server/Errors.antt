-- ===== src/Server/Errors.antt =====
-- src/server.c: what it means that a run with an error has changed nothing.
use cs356_mini_file_system.Store.ReadOnly.{Kept, ReadOnly, run-Kept}
use cs356_mini_file_system.Store.Prog.{
  Outcome, Prog, and_then, get_state, ok, pure, read_zone, undefined, unfinished, ◌>>=◌,
}
use cs356_mini_file_system.Store.Spec.{Store, run}
use cs356_mini_file_system.Store.Bind.{run-bind}
use cs356_mini_file_system.Base.{Bool, false, false≢true, refl, subst, sym, true, ℕ, ◌∙◌, ◌≡◌}

abbrev pub Same : Store → Store → Type 0
Same s s' =
    (s'.zones ≡ s.zones)
    × (s'.states ≡ s.states)
    × (s'.world.clock ≡ s.world.clock)
    × (s'.world.sock ≡ s.world.sock)

pub Same-trans : (s s1 s2 : Store) → Same s s1 → Same s1 s2 → Same s s2
Same-trans s s1 s2 (z, p, c, k) (z', p', c', k') = (z' ∙ z, p' ∙ p, c' ∙ c, k' ∙ k)

Same-refl : (s : Store) → Same s s
Same-refl s = (refl, refl, refl, refl)

-- A run with an error flag that ends with the flag set has changed nothing.
abbrev pub Refuses : {A : Type 0} → (A → Bool) → Store → Outcome Store A → Type 0
Refuses flag s (ok a s') = flag a ≡ true → Same s s'
Refuses flag s undefined = Unit
Refuses flag s unfinished = Unit

module _ {A : Type 0} (flag : A → Bool) where
  Refuses-from :
      (s s1 : Store) (o : Outcome Store A) → Same s s1 → Refuses flag s1 o → Refuses flag s o
  Refuses-from s s1 (ok a s') h k = λ e. Same-trans s s1 s' h (k e)
  Refuses-from s s1 undefined h k = tt
  Refuses-from s s1 unfinished h k = tt

  Refuses-and_then :
      {B : Type 0} (s : Store) (o : Outcome Store B) (f : B → Store → Outcome Store A)
      → Kept s o
      → ((b : B) (s1 : Store) → Refuses flag s1 (f b s1))
      → Refuses flag s (and_then o f)
  Refuses-and_then s (ok b s1) f h k = Refuses-from s s1 (f b s1) h (k b s1)
  Refuses-and_then s undefined f h k = tt
  Refuses-and_then s unfinished f h k = tt

  -- a part that only reads, in front
  pub Refuses-bind :
      {B : Type 0} (m : Prog B) (f : B → Prog A)
      → ((s : Store) → Kept s (run m s))
      → ((b : B) (s : Store) → Refuses flag s (run (f b) s))
      → (s : Store) → Refuses flag s (run (m >>= f) s)
  Refuses-bind m f h k s =
      subst (Refuses flag s) (sym (run-bind m f s))
        (Refuses-and_then s (run m s) (λ b s1. run (f b) s1) (h s) k)

  Refuses-ok : (s : Store) (a : A) → Refuses flag s (run (pure a) s)
  unfolding run
  Refuses-ok s a = λ e. Same-refl s

  -- The program ends without the flag, if it ends.
  abbrev Clears : Prog A → Type 0
  Clears m = (s s1 : Store) → Refuses flag s (run m s1)

  Clears-pure : (a : A) → flag a ≡ false → Clears (pure a)
  unfolding run
  Clears-pure a h s s1 = λ e. absurd (false≢true (sym h ∙ e))

  -- whatever is done before
  Clears-bind :
      {B : Type 0} (m : Prog B) (f : B → Prog A) → ((b : B) → Clears (f b)) → Clears (m >>= f)
  Clears-bind m f h s s1 = subst (Refuses flag s) (sym (run-bind m f s1)) (behind (run m s1))
    where
      behind : (o : Outcome Store _) → Refuses flag s (and_then o (λ b s2. run (f b) s2))
      behind (ok b s2) = h b s s2
      behind undefined = tt
      behind unfinished = tt

pub read-Kept : (id : ℕ) (s : Store) → Kept s (run (read_zone id) s)
unfolding ReadOnly
read-Kept id s = run-Kept (read_zone id) s (λ zone. tt)

pub state-Kept : (id : ℕ) (s : Store) → Kept s (run (get_state id) s)
unfolding ReadOnly
state-Kept id s = run-Kept (get_state id) s (λ state. tt)

-- the error flag is the result
abbrev pub Refused : Store → Outcome Store Bool → Type 0
Refused = Refuses (λ error. error)

-- two parts, and a result without an error
pub Clears-twice :
    {A B : Type 0} (m : Prog A) (n : A → Prog B)
    → Clears (λ error. error) (do a ← m; b ← n a; pure false)
Clears-twice m n =
    Clears-bind (λ error. error) m _
      (λ a. Clears-bind (λ error. error) (n a) _ (λ b. Clears-pure (λ error. error) false refl))

pub Refused-pure : (b : Bool) (s : Store) → Refused s (run (pure b) s)
Refused-pure b s = Refuses-ok (λ error. error) s b
