-- ===== src/DiskMgr/Requests.antt =====
-- src/utils.c and src/disk_mgr.c: what `read_block` and `write_block` ask for, as the disk manager
-- takes it apart.
use cs356_mini_file_system.Base.{
  List, [], ap, append_assoc, arith, length, length-append, refl, ℕ, ◌++◌, ◌+◌, ◌-◌, ◌/◌, ◌<◌, ◌^◌,
  ◌∙◌, ◌∷◌, ◌≡◌,
}
use cs356_mini_file_system.Utils.Text.{IsText, IsText-append, Text, codes}
use cs356_mini_file_system.Utils.Socket.{buffer_size}
use cs356_mini_file_system.Utils.Decimal.{digits, itoa}
use cs356_mini_file_system.Utils.Tokens.{get_toks}
use cs356_mini_file_system.Utils.Tokens.Words.{get_toks-unwords, unwords}
use cs356_mini_file_system.DiskMgr.{block_size}
use cs356_mini_file_system.DiskMgr.Numbers.{IsNumber, itoa-IsNumber}

abbrev pub request : ℕ → ℕ → Text
request c s = codes "R " ++ itoa c ++ codes " " ++ itoa s

abbrev pub order : ℕ → ℕ → Text
order c s =
    codes "W "
    ++ itoa c
    ++ codes " "
    ++ itoa s
    ++ codes " "
    ++ itoa ((block_size - 1) / buffer_size + 1)

-- the words of the two
abbrev pub request_words : ℕ → ℕ → List Text
request_words c s = codes "R" ∷ itoa c ∷ itoa s ∷ []

abbrev pub order_words : ℕ → ℕ → List Text
order_words c s = codes "W" ∷ itoa c ∷ itoa s ∷ codes "4" ∷ []

module _ (c s : ℕ) (c_fits : c < 2 ^ 31) (s_fits : s < 2 ^ 31) where
  c_is : IsNumber c
  c_is = itoa-IsNumber c c_fits

  s_is : IsNumber s
  s_is = itoa-IsNumber s s_fits

  request-unwords : request c s ≡ unwords (request_words c s)
  unfolding unwords
  request-unwords = ap (λ l. 82 ∷ 32 ∷ l) (append_assoc (itoa c) (32 ∷ []) (itoa s))

  pub request-toks : get_toks (request c s) 6 ≡ request_words c s
  request-toks =
      ap (λ t. get_toks t 6) request-unwords
      ∙ get_toks-unwords 6 (request_words c s)
          (((λ e. cc), (refl, tt)), (c_is.word, (s_is.word, tt))) (omega arith)

  pub request-short : length (request c s) < 127
  request-short = omega (
    arith,
    length-append (codes "R " ++ itoa c ++ codes " ") (itoa s),
    length-append (codes "R " ++ itoa c) (codes " "),
    c_is.short,
    s_is.short,
  )

  pub request-IsText : IsText (request c s)
  request-IsText =
      IsText-append (codes "R " ++ itoa c ++ codes " ") (itoa s)
        (IsText-append (codes "R " ++ itoa c) (codes " ") (omega arith, (omega arith, c_is.text))
          (omega arith, tt))
        s_is.text

  order-unwords : order c s ≡ unwords (order_words c s)
  unfolding unwords itoa digits
  order-unwords =
      ap (λ l. 87 ∷ 32 ∷ l)
        (append_assoc (itoa c ++ 32 ∷ [] ++ itoa s) (32 ∷ []) (52 ∷ [])
          ∙ append_assoc (itoa c ++ 32 ∷ []) (itoa s) (32 ∷ 52 ∷ [])
          ∙ append_assoc (itoa c) (32 ∷ []) (itoa s ++ 32 ∷ 52 ∷ []))

  pub order-toks : get_toks (order c s) 6 ≡ order_words c s
  order-toks =
      ap (λ t. get_toks t 6) order-unwords
      ∙ get_toks-unwords 6 (order_words c s)
          (((λ e. cc), (refl, tt)), (c_is.word, (s_is.word, (((λ e. cc), (refl, tt)), tt))))
          (omega arith)

  pub order-short : length (order c s) < 127
  unfolding itoa digits
  order-short = omega (
    arith,
    length-append (codes "W " ++ itoa c ++ codes " " ++ itoa s ++ codes " ") (codes "4"),
    length-append (codes "W " ++ itoa c ++ codes " " ++ itoa s) (codes " "),
    length-append (codes "W " ++ itoa c ++ codes " ") (itoa s),
    length-append (codes "W " ++ itoa c) (codes " "),
    c_is.short,
    s_is.short,
  )

  pub order-IsText : IsText (order c s)
  unfolding itoa digits
  order-IsText =
      IsText-append (codes "W " ++ itoa c ++ codes " " ++ itoa s ++ codes " ") (codes "4")
        (IsText-append (codes "W " ++ itoa c ++ codes " " ++ itoa s) (codes " ")
          (IsText-append (codes "W " ++ itoa c ++ codes " ") (itoa s)
            (IsText-append (codes "W " ++ itoa c) (codes " ")
              (omega arith, (omega arith, c_is.text)) (omega arith, tt))
            s_is.text)
          (omega arith, tt))
        (omega arith, tt)
