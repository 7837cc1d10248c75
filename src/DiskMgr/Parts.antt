-- ===== src/DiskMgr/Parts.antt =====
-- src/utils.c and src/disk_mgr.c: a block is written in four parts.
use cs356_mini_file_system.Base.{
  List, [], add-zero, ap, arith, drop, length, length-drop, length-take, refl, subst, suc, sym,
  take, take-append-drop, take_all, zero, ℕ, ◌*◌, ◌++◌, ◌+◌, ◌-◌, ◌<◌, ◌∙◌, ◌∷◌, ◌≡◌, ◌≤◌,
}
use cs356_mini_file_system.Utils.Text.{c_string, codes, str_eq}
use cs356_mini_file_system.Utils.Socket.{ends_in_nul, packet}
use cs356_mini_file_system.Wire.{Wire, heard, quiet, say, say_msg}
use cs356_mini_file_system.Wire.Talk.{
  Reaches, Reaches-answer, Reaches-eq, Reaches-refl, Reaches-say_to, Reaches-trans, Waits,
  length-packet,
}
use cs356_mini_file_system.Store.Spec.{update}
use cs356_mini_file_system.DiskMgr.{File, store_chunks, take_chunks, write_file}

write_file-append :
    (file : File) (pos : ℕ) (xs ys : List ℕ)
    → write_file file pos (xs ++ ys) ≡ write_file (write_file file pos xs) (pos + length xs) ys
unfolding write_file
write_file-append file pos [] ys = ap (λ p. write_file file p ys) (sym (add-zero pos))
write_file-append file pos (b ∷ xs) ys =
    let next : pos + 1 + length xs ≡ pos + length (b ∷ xs) = omega arith in
    write_file-append (update file pos b) (pos + 1) xs ys
    ∙ ap (λ p. write_file (write_file (update file pos b) (pos + 1) xs) p ys) next

module _ {A : Type 0} (next : Wire A) (rest : File → Wire File) where
  pub store-Waits : (rounds : ℕ) (bytes : List ℕ) → Waits (store_chunks (suc rounds) bytes next)
  unfolding store_chunks
  store-Waits rounds [] = record { size = _; back = _; waits = refl }
  store-Waits rounds (b ∷ bytes) = record { size = _; back = _; waits = refl }

  -- the request for a part, and its answer
  store-expected :
      (rounds : ℕ) (bytes : List ℕ) (s : Wire File)
      → 0 < length bytes
      → Reaches
          (quiet (store_chunks (suc rounds) bytes next) (say_msg (codes "EXPECT") s))
          (quiet (say (take 128 bytes) (store_chunks rounds (drop 128 bytes) next)) s)
  unfolding store_chunks heard packet ends_in_nul c_string str_eq
  store-expected rounds [] s more = absurd (omega arith)
  store-expected rounds (b ∷ bytes) s more =
      Reaches-answer (packet (codes "EXPECT")) 127 _ s
        (length-packet (codes "EXPECT") (omega arith))

  store-over :
      (rounds : ℕ) (s : Wire File)
      → Reaches
          (quiet (store_chunks (suc rounds) [] next) (say_msg (codes "OVER") s))
          (quiet next s)
  unfolding store_chunks heard packet ends_in_nul c_string
  store-over rounds s =
      Reaches-answer (packet (codes "OVER")) 127 _ s (length-packet (codes "OVER") (omega arith))

  -- one part of 128 bytes
  one_part :
      (rounds n : ℕ) (file : File) (pos end : ℕ) (bytes : List ℕ)
      → 128 ≤ length bytes
      → 128 ≤ end - pos
      → Reaches
          (quiet
            (store_chunks (suc (suc rounds)) bytes next)
            (take_chunks (suc n) file pos end rest))
          (quiet
            (store_chunks (suc rounds) (drop 128 bytes) next)
            (take_chunks n (write_file file pos (take 128 bytes)) (pos + 128) end rest))
  unfolding take_chunks
  one_part rounds n file pos end bytes more room =
      let part = take 128 bytes in
      let size : length part ≡ 128 = omega (arith, length-take 128 bytes) in
      Reaches-trans (store-expected (suc rounds) bytes _ (omega arith)) (
        Reaches-trans
          (Reaches-say_to part (store_chunks (suc rounds) (drop 128 bytes) next) 128 _
            (store-Waits rounds (drop 128 bytes)) (omega (arith, size)))
          (Reaches-eq _ refl
            (ap (λ l. take_chunks n (write_file file pos l) (pos + length l) end rest)
                (take_all (end - pos) part (omega (arith, size)))
              ∙ ap (λ k. take_chunks n (write_file file pos part) (pos + k) end rest) size)
            (Reaches-refl _)))

  pub parts :
      (k rounds : ℕ) (file : File) (pos end : ℕ) (bytes : List ℕ)
      → length bytes ≡ k * 128
      → end ≡ pos + k * 128
      → k < rounds
      → Reaches
          (quiet (store_chunks rounds bytes next) (take_chunks k file pos end rest))
          (quiet next (rest (write_file file pos bytes)))
  unfolding take_chunks write_file
  parts k zero file pos end bytes e f lt = absurd (omega arith)
  parts zero (suc rounds) file pos end [] e f lt = store-over rounds (rest file)
  parts zero (suc rounds) file pos end (b ∷ bytes) e f lt = absurd (omega arith)
  parts (suc k) (suc zero) file pos end bytes e f lt = absurd (omega arith)
  parts (suc k) (suc (suc rounds)) file pos end bytes e f lt =
      Reaches-trans (one_part rounds k file pos end bytes (omega arith) (omega arith)) (
        subst
          (λ f'.
            Reaches
              (quiet (store_chunks (suc rounds) (drop 128 bytes) next)
                (take_chunks k (write_file file pos (take 128 bytes)) (pos + 128) end rest))
              (quiet next (rest f')))
          joined
          (parts k (suc rounds) (write_file file pos (take 128 bytes)) (pos + 128) end
            (drop 128 bytes) (omega (arith, length-drop 128 bytes)) (omega arith) (omega arith)))
    where
      joined :
          write_file (write_file file pos (take 128 bytes)) (pos + 128) (drop 128 bytes)
          ≡ write_file file pos bytes
      joined =
          let size : length (take 128 bytes) ≡ 128 = omega (arith, length-take 128 bytes) in
          ap (λ n. write_file (write_file file pos (take 128 bytes)) (pos + n) (drop 128 bytes))
            (sym size)
          ∙ sym (write_file-append file pos (take 128 bytes) (drop 128 bytes))
          ∙ ap (write_file file pos) (take-append-drop 128 bytes)
