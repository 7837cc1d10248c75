-- ===== src/Fs/Data/Write.antt =====
-- src/fs_lib.c: `wrt_data` and the text of a zone.
use cs356_mini_file_system.Store.Run.{IsZone, run-pure, run-read, run-write}
use cs356_mini_file_system.Store.Spec.{Store, run, update}
use cs356_mini_file_system.Store.Prog.{ok, on_write, pure}
use cs356_mini_file_system.Alloc.Cache.{Zone}
use cs356_mini_file_system.Utils.Text.{
  IsText, IsText-append, IsText-take, Text, c_string, c_string-IsText, c_string-lt, c_string_text,
  has_nul, has_nul_text,
}
use cs356_mini_file_system.Base.{
  [], ap, append-nil, append_assoc, ap₂, arith, dec_lt, drop, drop_all, false, inl, inr, length,
  length-append, length-drop, length-take, ltb, ltb_ge, lt→ltb, refl, take, take-append-drop, true,
  ℕ, ◌++◌, ◌+◌, ◌-◌, ◌<◌, ◌∙◌, ◌∷◌, ◌≡◌, ◌≤◌, ◌⊎◌,
}
use cs356_mini_file_system.Fs.Data.{append_text, wrt_bytes, wrt_data}

-- What `wrt_data` did: it took `n` bytes of the string behind the zone's text, all of them or as many as fill the zone.
pub record Wrote (bytes out : Zone) (str : Text) (n : ℕ) : Type 0 where
  pub text : c_string out ++ drop n str ≡ c_string bytes ++ str
  pub whole : (drop n str ≡ []) ⊎ (length (c_string out) ≡ 63)
  pub size : length out ≡ 64
  pub ended : has_nul out ≡ true

module _ (bytes : Zone) (size : length bytes ≡ 64) (str : Text) (valid : IsText str) where
  c_string-append_text : c_string (append_text bytes (c_string bytes) str) ≡ c_string bytes ++ str
  unfolding append_text
  c_string-append_text =
      c_string_text (c_string bytes ++ str) _
        (IsText-append (c_string bytes) str (c_string-IsText bytes) valid)

  length-append_text :
      length (c_string bytes) + length str < 64
      → length (append_text bytes (c_string bytes) str) ≡ 64
  unfolding append_text
  length-append_text h =
      let text = c_string bytes ++ str in
      omega (
        arith,
        length-append text (0 ∷ drop (length text + 1) bytes),
        length-drop (length text + 1) bytes,
        length-append (c_string bytes) str,
        size,
      )

  has_nul-append_text : has_nul (append_text bytes (c_string bytes) str) ≡ true
  unfolding append_text
  has_nul-append_text = has_nul_text (c_string bytes ++ str) _

module _ (bytes : Zone) (size : length bytes ≡ 64) (ended : has_nul bytes ≡ true) (str : Text)
    (valid : IsText str) where
  whole-Wrote :
      length (c_string bytes) + length str < 64
      → Wrote bytes (append_text bytes (c_string bytes) str) str (length str)
  whole-Wrote h =
      let rest : drop (length str) str ≡ [] = drop_all (length str) str (omega arith) in
      record {
        text =
            ap₂ (λ a b. a ++ b) (c_string-append_text bytes size str valid) rest
            ∙ append-nil (c_string bytes ++ str);
        whole = inl rest;
        size = length-append_text bytes size str valid h;
        ended = has_nul-append_text bytes size str valid;
      }

  filled-Wrote :
      64 ≤ length (c_string bytes) + length str
      → let n = 63 - length (c_string bytes) in
        Wrote bytes (append_text bytes (c_string bytes) (take n str)) str n
  filled-Wrote h =
      let n = 63 - length (c_string bytes) in
      let part = take n str in
      let part_valid = IsText-take n str valid in
      let fits : length (c_string bytes) + length part ≡ 63 =
        omega (arith, length-take n str, c_string-lt bytes ended, size) in
      let content = c_string-append_text bytes size part part_valid in
      record {
        text =
            ap (λ l. l ++ drop n str) content
            ∙ append_assoc (c_string bytes) part (drop n str)
            ∙ ap (λ l. c_string bytes ++ l) (take-append-drop n str);
        whole = inr (ap length content ∙ length-append (c_string bytes) part ∙ fits);
        size = length-append_text bytes size part part_valid (omega arith);
        ended = has_nul-append_text bytes size part part_valid;
      }

module _ (id : ℕ) (bytes : Zone) (ended : has_nul bytes ≡ true) (str : Text) where
  wrt_bytes-whole :
      ltb (length (c_string bytes) + length str) 64 ≡ true
      → wrt_bytes id bytes str
        ≡ on_write id (append_text bytes (c_string bytes) str) (pure (length str))
  unfolding wrt_bytes
  wrt_bytes-whole h = rw (ended, h, wrt_bytes) refl

  wrt_bytes-filled :
      ltb (length (c_string bytes) + length str) 64 ≡ false
      → wrt_bytes id bytes str
        ≡ on_write id
            (append_text bytes (c_string bytes) (take (63 - length (c_string bytes)) str))
            (pure (63 - length (c_string bytes)))
  unfolding wrt_bytes
  wrt_bytes-filled h = rw (ended, h, wrt_bytes) refl

run-wrt_data :
    (s : Store) {id n : ℕ} {out : Zone} (str : Text)
    → IsZone id
    → wrt_bytes id (s.zones id) str ≡ on_write id out (pure n)
    → run (wrt_data id str) s ≡ ok n (record s { zones = update s.zones id out })
unfolding wrt_data
run-wrt_data s {n} {out} str z e =
    run-read s _ z ∙ ap (λ p. run p s) e ∙ run-write s out (pure n) z ∙ run-pure n _

-- On a zone of 64 bytes that holds a string, `wrt_data` appends the string that it is given: it
-- returns how many of its bytes it takes, all of them unless the zone is then full with 63 bytes.
-- The zone's new text, followed by the bytes that are left, is the zone's old text followed by the
-- whole string; no other zone is changed.
pub wrt_data-Wrote :
    (s : Store) {id : ℕ} (str : Text)
    → IsZone id
    → length (s.zones id) ≡ 64
    → has_nul (s.zones id) ≡ true
    → IsText str
    → (n : ℕ) × (out : Zone) × (run (wrt_data id str) s
        ≡ ok n (record s { zones = update s.zones id out }))
      × Wrote (s.zones id) out str n
wrt_data-Wrote s {id} str z size ended valid =
    elim (dec_lt (length (c_string (s.zones id)) + length str) 64) [
      | yes room ↦ (
        length str,
        append_text (s.zones id) (c_string (s.zones id)) str,
        run-wrt_data s str z (wrt_bytes-whole id (s.zones id) ended str (lt→ltb _ 64 room)),
        whole-Wrote (s.zones id) size ended str valid room,
      )
      | no full ↦ (
        63 - length (c_string (s.zones id)),
        append_text (s.zones id) (c_string (s.zones id))
            (take (63 - length (c_string (s.zones id))) str),
        run-wrt_data s str z
            (wrt_bytes-filled id (s.zones id) ended str (ltb_ge _ 64 (omega arith))),
        filled-Wrote (s.zones id) size ended str valid (omega arith),
      )
    ]
