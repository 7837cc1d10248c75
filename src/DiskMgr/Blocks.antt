-- ===== src/DiskMgr/Blocks.antt =====
-- src/utils.c and src/disk_mgr.c: a block is read in four parts.
use cs356_mini_file_system.Utils.Socket.{packet}
use cs356_mini_file_system.Base.{
  ==_ne, List, ap, append-nil, append_assoc, ap₂, arith, length, min, refl, subst, suc, sym, zero,
  ℕ, ◌*◌, ◌++◌, ◌+◌, ◌-◌, ◌<◌, ◌∙◌, ◌∷◌, ◌≡◌, ◌≤◌,
}
use cs356_mini_file_system.Utils.Text.{codes}
use cs356_mini_file_system.Wire.{Wire, hear, hear_msg, quiet, say, say_msg}
use cs356_mini_file_system.Wire.Talk.{
  Reaches, Reaches-answer, Reaches-eq, Reaches-refl, Reaches-say, Reaches-trans, length-packet,
}
use cs356_mini_file_system.DiskMgr.{File, fetch_chunks, read_file, send_chunks}

pub length-read_file : (file : File) (pos n : ℕ) → length (read_file file pos n) ≡ n
unfolding read_file
length-read_file file pos zero = refl
length-read_file file pos (suc n) = ap suc (length-read_file file (pos + 1) n)

read_file-add :
    (file : File) (pos m n : ℕ)
    → read_file file pos (m + n) ≡ read_file file pos m ++ read_file file (pos + m) n
unfolding read_file
read_file-add file pos zero n = ap₂ (λ p k. read_file file p k) (omega arith) (omega arith)
read_file-add file pos (suc m) n =
    let e : suc m + n ≡ suc (m + n) = omega arith in
    let next : pos + 1 + m ≡ pos + suc m = omega arith in
    ap (read_file file pos) e
    ∙ ap (λ l. file pos ∷ l)
        (read_file-add file (pos + 1) m n
          ∙ ap (λ p. read_file file (pos + 1) m ++ read_file file p n) next)

module _ {A : Type 0} (file : File) (next : List ℕ → Wire A) (rest : Wire File) where
  fetch-more :
      (rounds num : ℕ) (got : List ℕ)
      → 128 ≤ num
      → fetch_chunks (suc rounds) num got next
        ≡ say_msg
            (codes "EXPECT")
            (hear 128 (λ bytes. fetch_chunks rounds (num - length bytes) (got ++ bytes) next))
  unfolding fetch_chunks
  fetch-more rounds num got more =
      let whole : min 128 num ≡ 128 = omega arith in
      rw (==_ne num 0 (omega arith), fetch_chunks, whole) refl

  send-more :
      (rounds pos num : ℕ)
      → 128 ≤ num
      → send_chunks (suc rounds) file pos num rest
        ≡ hear_msg (λ msg.
          say (read_file file pos 128) (send_chunks rounds file (pos + 128) (num - 128) rest))
  unfolding send_chunks
  send-more rounds pos num more =
      let whole : min 128 num ≡ 128 = omega arith in
      rw (==_ne num 0 (omega arith), send_chunks, whole) refl

  fetch-end : (rounds : ℕ) (got : List ℕ) → fetch_chunks (suc rounds) 0 got next ≡ next got
  unfolding fetch_chunks
  fetch-end rounds got = refl

  send-end : (rounds pos : ℕ) → send_chunks (suc rounds) file pos 0 rest ≡ rest
  unfolding send_chunks
  send-end rounds pos = refl

  -- one part of 128 bytes
  one_chunk :
      (rounds rounds' pos num : ℕ) (got : List ℕ)
      → 128 ≤ num
      → Reaches
          (quiet
            (fetch_chunks (suc rounds) num got next)
            (send_chunks (suc rounds') file pos num rest))
          (quiet
            (fetch_chunks rounds (num - 128) (got ++ read_file file pos 128) next)
            (send_chunks rounds' file (pos + 128) (num - 128) rest))
  one_chunk rounds rounds' pos num got more =
      let part = read_file file pos 128 in
      let back : List ℕ → Wire A =
        λ bytes. fetch_chunks rounds (num - length bytes) (got ++ bytes) next in
      let further = send_chunks rounds' file (pos + 128) (num - 128) rest in
      let size : length part ≡ 128 = length-read_file file pos 128 in
      Reaches-eq _ (fetch-more rounds num got more) (send-more rounds' pos num more) (
        Reaches-trans
          (Reaches-say (packet (codes "EXPECT")) 128 back 127 (λ msg. say part further)
            (length-packet (codes "EXPECT") (omega arith)))
          (Reaches-trans (Reaches-answer part 128 back further (omega (arith, size))) (
            Reaches-eq _ (ap (λ n. fetch_chunks rounds (num - n) (got ++ part) next) size) refl
              (Reaches-refl _))))

  pub chunks :
      (k rounds rounds' pos num : ℕ) (got : List ℕ)
      → num ≡ k * 128
      → k < rounds
      → k < rounds'
      → Reaches
          (quiet (fetch_chunks rounds num got next) (send_chunks rounds' file pos num rest))
          (quiet (next (got ++ read_file file pos num)) rest)
  chunks k zero rounds' pos num got e lt lt' = absurd (omega arith)
  chunks k (suc rounds) zero pos num got e lt lt' = absurd (omega arith)
  chunks zero (suc rounds) (suc rounds') pos num got e lt lt' =
      let z : num ≡ 0 = omega arith in
      Reaches-eq _
        (ap (λ n. fetch_chunks (suc rounds) n got next) z
          ∙ fetch-end rounds got
          ∙ ap next (sym (ap (λ n. got ++ read_file file pos n) z ∙ nothing)))
        (ap (λ n. send_chunks (suc rounds') file pos n rest) z ∙ send-end rounds' pos)
        (Reaches-refl _)
    where
      nothing : got ++ read_file file pos 0 ≡ got
      nothing = unfold read_file in append-nil got
  chunks (suc k) (suc rounds) (suc rounds') pos num got e lt lt' =
      Reaches-trans (one_chunk rounds rounds' pos num got (omega arith)) (
        subst
          (λ bytes.
            Reaches
              (quiet (fetch_chunks rounds (num - 128) (got ++ read_file file pos 128) next)
                (send_chunks rounds' file (pos + 128) (num - 128) rest))
              (quiet (next bytes) rest))
          joined
          (chunks k rounds rounds' (pos + 128) (num - 128) (got ++ read_file file pos 128)
            (omega arith) (omega arith) (omega arith)))
    where
      joined :
          (got ++ read_file file pos 128) ++ read_file file (pos + 128) (num - 128)
          ≡ got ++ read_file file pos num
      joined =
          let split : 128 + (num - 128) ≡ num = omega arith in
          append_assoc got (read_file file pos 128) (read_file file (pos + 128) (num - 128))
          ∙ ap (λ l. got ++ l)
              (sym (read_file-add file pos 128 (num - 128)) ∙ ap (read_file file pos) split)
