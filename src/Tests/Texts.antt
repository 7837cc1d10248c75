-- ===== src/Tests/Texts.antt =====
-- src/utils.c and src/server.c on a number, on words and on a request.
use cs356_mini_file_system.Base.{All, List, [], arith, refl, ◌∷◌, ◌≡◌}
use cs356_mini_file_system.Utils.Text.{Text, codes}
use cs356_mini_file_system.Utils.Decimal.{atoi, itoa}
use cs356_mini_file_system.Utils.Decimal.RoundTrip.{atoi-itoa}
use cs356_mini_file_system.Utils.Tokens.{get_toks}
use cs356_mini_file_system.Utils.Tokens.Words.{IsWord, get_toks-unwords, unwords}
use cs356_mini_file_system.Server.Interpret.{cd_request, request_of}
use cs356_mini_file_system.Server.Interpret.RoundTrip.{args_of, request_of-unwords, words_of}

atoi-itoa_example : atoi (itoa 4096) ≡ 4096
atoi-itoa_example = atoi-itoa 4096 (omega arith)

-- "write a hi"
abbrev write_words : List Text
write_words = codes "write" ∷ codes "a" ∷ codes "hi" ∷ []

write_words-IsWord : All IsWord write_words
write_words-IsWord = (
  ((λ e. cc), (refl, (refl, (refl, (refl, (refl, tt)))))),
  (((λ e. cc), (refl, tt)), (((λ e. cc), (refl, (refl, tt))), tt)),
)

get_toks-unwords_example : get_toks (unwords write_words) 6 ≡ write_words
get_toks-unwords_example = get_toks-unwords 6 write_words write_words-IsWord (omega arith)

cd_args-IsWord : All IsWord (args_of (cd_request (codes "d/e")))
unfolding args_of
cd_args-IsWord = (((λ e. cc), (refl, (refl, (refl, tt)))), tt)

request_of-unwords_example :
    request_of (get_toks (unwords (words_of (cd_request (codes "d/e")))) 6)
    ≡ cd_request (codes "d/e")
request_of-unwords_example = request_of-unwords (cd_request (codes "d/e")) cd_args-IsWord
