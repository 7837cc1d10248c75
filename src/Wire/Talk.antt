-- ===== src/Wire/Talk.antt =====
-- Steps of two programs that talk.
use cs356_mini_file_system.Utils.Text.{IsText, Text, c_string_text}
use cs356_mini_file_system.Base.{
  List, [], ap, arith, drop_all, length, length-append, refl, some, subst, suc, sym, take_all, zero,
  zero-add, ℕ, ◌+◌, ◌<◌, ◌∙◌, ◌∷◌, ◌≡◌, ◌≤◌,
}
use cs356_mini_file_system.Utils.Socket.{ends_in_nul_text, left_over, packet}
use cs356_mini_file_system.Wire.{
  Config, Wire, hear, heard, quiet, say, step, step_client, step_server, talk,
}

-- From one state of the two programs they come to the other.
pub record Reaches {A B : Type 0} (x y : Config A B) : Type 0 where
  pub steps : ℕ
  pub ran : talk steps x ≡ y

pub talk-add : {A B : Type 0} (m n : ℕ) (x : Config A B) → talk (m + n) x ≡ talk n (talk m x)
unfolding talk
talk-add zero n x = ap (λ k. talk k x) (zero-add n)
talk-add (suc m) n x =
    let e : suc m + n ≡ suc (m + n) = omega arith in ap (λ k. talk k x) e ∙ talk-add m n (step x)

pub Reaches-refl : {A B : Type 0} (x : Config A B) → Reaches x x
unfolding talk
Reaches-refl x = record { steps = 0; ran = refl }

pub Reaches-trans : {A B : Type 0} {x y z : Config A B} → Reaches x y → Reaches y z → Reaches x z
Reaches-trans {x = x} p q = record {
  steps = p.steps + q.steps;
  ran = talk-add p.steps q.steps x ∙ ap (talk q.steps) p.ran ∙ q.ran;
}

-- The client says something to a server that waits.
pub Reaches-say :
    {A B : Type 0} (p : List ℕ) (m : ℕ) (back : List ℕ → Wire A) (n : ℕ) (next : List ℕ → Wire B)
    → length p ≤ n
    → Reaches (quiet (say p (hear m back)) (hear n next)) (quiet (hear m back) (next p))
unfolding talk step_client step_server left_over
Reaches-say p m back n next short = record {
  steps = 2;
  ran = rw (take_all n p short, drop_all n p short) refl;
}

-- The server says something to a client that waits.
pub Reaches-answer :
    {A B : Type 0} (p : List ℕ) (n : ℕ) (back : List ℕ → Wire A) (s : Wire B)
    → length p ≤ n
    → Reaches (quiet (hear n back) (say p s)) (quiet (back p) s)
unfolding talk step_client step_server left_over
Reaches-answer p n back s short = record {
  steps = 2;
  ran = rw (take_all n p short, drop_all n p short) refl;
}

-- programs that are equal
pub Reaches-eq :
    {A B : Type 0} {c c' : Wire A} {s s' : Wire B} (z : Config A B)
    → c ≡ c'
    → s ≡ s'
    → Reaches (quiet c' s') z
    → Reaches (quiet c s) z
Reaches-eq {c = c} {s' = s'} z p q r =
    subst (λ t. Reaches (quiet c t) z) (sym q) (subst (λ d. Reaches (quiet d s') z) (sym p) r)

-- what `get_msg` makes of the packet of a short text
pub heard-packet : (text : Text) → length text < 127 → IsText text → heard (packet text) ≡ some text
unfolding heard packet
heard-packet text short valid =
    rw (take_all 127 text (omega arith), ends_in_nul_text text, c_string_text text [] valid) refl

pub length-packet : (text : Text) → length text < 127 → length (packet text) ≤ 127
unfolding packet
length-packet text short =
    rw (take_all 127 text (omega arith)) (omega (arith, length-append text (0 ∷ [])))

-- The program waits for a message.
pub record Waits {A : Type 0} (c : Wire A) : Type 0 where
  pub size : ℕ
  pub back : List ℕ → Wire A
  pub waits : c ≡ hear size back

-- The same when the client is known to wait behind.
pub Reaches-say_to :
    {A B : Type 0} (p : List ℕ) (c : Wire A) (n : ℕ) (next : List ℕ → Wire B)
    → Waits c
    → length p ≤ n
    → Reaches (quiet (say p c) (hear n next)) (quiet c (next p))
Reaches-say_to p c n next w short =
    subst (λ d. Reaches (quiet (say p d) (hear n next)) (quiet d (next p))) (sym w.waits)
      (Reaches-say p w.size w.back n next short)
