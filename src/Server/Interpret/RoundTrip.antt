-- ===== src/Server/Interpret/RoundTrip.antt =====
-- src/server.c: a request is read back from its words.
use cs356_mini_file_system.Utils.Tokens.{get_toks}
use cs356_mini_file_system.Utils.Decimal.{is_space}
use cs356_mini_file_system.Base.{
  All, Bool, List, [], ap, arith, length, not, refl, true, ℕ, ◌&&◌, ◌++◌, ◌<◌, ◌∙◌, ◌∷◌, ◌≡◌,
}
use cs356_mini_file_system.Utils.Text.{Text, codes, str_eq}
use cs356_mini_file_system.Utils.Tokens.Words.{IsWord, NoSpace, get_toks-unwords, unwords}
use cs356_mini_file_system.Server.Interpret.{
  Request, append_request, cat_request, cd_request, exit_request, ls_here_request, ls_request,
  mkdir_request, request_of, request_on, rm_request, rmdir_request, touch_request, unknown_request,
  write_request,
}

-- the words behind the first
unfoldable pub args_of : Request → List Text
args_of exit_request = []
args_of (touch_request path) = path ∷ []
args_of (mkdir_request path) = path ∷ []
args_of (rm_request path) = path ∷ []
args_of (rmdir_request path) = path ∷ []
args_of (ls_request path) = path ∷ []
args_of ls_here_request = []
args_of (cat_request path) = path ∷ []
args_of (write_request path str) = path ∷ str ∷ []
args_of (append_request path str) = path ∷ str ∷ []
args_of (cd_request path) = path ∷ []
args_of unknown_request = []

-- the first word; the request that is not known is the one without any
unfoldable pub word_of : Request → List Text
word_of exit_request = codes "exit" ∷ []
word_of (touch_request path) = codes "touch" ∷ []
word_of (mkdir_request path) = codes "mkdir" ∷ []
word_of (rm_request path) = codes "rm" ∷ []
word_of (rmdir_request path) = codes "rmdir" ∷ []
word_of (ls_request path) = codes "ls" ∷ []
word_of ls_here_request = codes "ls" ∷ []
word_of (cat_request path) = codes "cat" ∷ []
word_of (write_request path str) = codes "write" ∷ []
word_of (append_request path str) = codes "append" ∷ []
word_of (cd_request path) = codes "cd" ∷ []
word_of unknown_request = []

abbrev pub words_of : Request → List Text
words_of request = word_of request ++ args_of request

request_of-words_of : (request : Request) → request_of (words_of request) ≡ request
unfolding request_of request_on word_of args_of str_eq
request_of-words_of exit_request = refl
request_of-words_of (touch_request path) = refl
request_of-words_of (mkdir_request path) = refl
request_of-words_of (rm_request path) = refl
request_of-words_of (rmdir_request path) = refl
request_of-words_of (ls_request path) = refl
request_of-words_of ls_here_request = refl
request_of-words_of (cat_request path) = refl
request_of-words_of (write_request path str) = refl
request_of-words_of (append_request path str) = refl
request_of-words_of (cd_request path) = refl
request_of-words_of unknown_request = refl

-- Does the text hold no space?
unfoldable no_space : Text → Bool
no_space [] = true
no_space (c ∷ w) = not (is_space c) && no_space w

no_space-NoSpace : (w : Text) → no_space w ≡ true → NoSpace w
unfolding no_space
no_space-NoSpace [] h = tt
no_space-NoSpace (c ∷ w) h = (ground arith, no_space-NoSpace w (ground arith))

IsWord-no_space : (c : ℕ) (w : Text) → no_space (c ∷ w) ≡ true → IsWord (c ∷ w)
IsWord-no_space c w h = ((λ e. cc), no_space-NoSpace (c ∷ w) h)

words_of-IsWord : (request : Request) → All IsWord (args_of request) → All IsWord (words_of request)
unfolding word_of args_of no_space
words_of-IsWord exit_request h = (IsWord-no_space _ _ refl, tt)
words_of-IsWord (touch_request path) h = (IsWord-no_space _ _ refl, h)
words_of-IsWord (mkdir_request path) h = (IsWord-no_space _ _ refl, h)
words_of-IsWord (rm_request path) h = (IsWord-no_space _ _ refl, h)
words_of-IsWord (rmdir_request path) h = (IsWord-no_space _ _ refl, h)
words_of-IsWord (ls_request path) h = (IsWord-no_space _ _ refl, h)
words_of-IsWord (cat_request path) h = (IsWord-no_space _ _ refl, h)
words_of-IsWord (cd_request path) h = (IsWord-no_space _ _ refl, h)
words_of-IsWord ls_here_request h = (IsWord-no_space _ _ refl, tt)
words_of-IsWord (write_request path str) h = (IsWord-no_space _ _ refl, h)
words_of-IsWord (append_request path str) h = (IsWord-no_space _ _ refl, h)
words_of-IsWord unknown_request h = tt

length-words_of : (request : Request) → length (words_of request) < 4
unfolding word_of args_of
length-words_of exit_request = omega arith
length-words_of (touch_request path) = omega arith
length-words_of (mkdir_request path) = omega arith
length-words_of (rm_request path) = omega arith
length-words_of (rmdir_request path) = omega arith
length-words_of (ls_request path) = omega arith
length-words_of (cat_request path) = omega arith
length-words_of (cd_request path) = omega arith
length-words_of ls_here_request = omega arith
length-words_of (write_request path str) = omega arith
length-words_of (append_request path str) = omega arith
length-words_of unknown_request = omega arith

-- A request whose arguments are words is read back from its words with single blanks between them.
pub request_of-unwords :
    (request : Request)
    → All IsWord (args_of request)
    → request_of (get_toks (unwords (words_of request)) 6) ≡ request
request_of-unwords request h =
    ap request_of (
      get_toks-unwords 6 (words_of request) (words_of-IsWord request h)
        (omega (arith, length-words_of request)))
    ∙ request_of-words_of request
