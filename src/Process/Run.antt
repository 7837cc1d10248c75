-- ===== src/Process/Run.antt =====
-- The runs of the programs: whatever the system answers, which parts they run and how they end.
use cs356_mini_file_system.Base.{
  not, Bool, List, [], arith, if◌then◌else◌, ltb, none, some, ℕ, ◌+◌, ◌-◌, ◌==◌, ◌^◌, ◌||◌, ◌∷◌,
  ◌≡◌,
}
use cs356_mini_file_system.Process.{
  close, Call, Part, Process, alloc_final, alloc_init, calls, does, exits, gen_server_sock,
  interpret, negative, negative_long, new_sock, returns, serv_loop,
}

pub data End (A : Type 0) : Type 0 where
  returned : A → End A
  exited : ℕ → End A

pub record Ran (A : Type 0) : Type 0 where
  pub made : List Call
  pub end : End A

-- a run on the answers of the system, in order
unfoldable pub run : {A : Type 0} → Process A → (ℕ → ℕ) → Ran A
run (returns a) answers = record { made = []; end = returned a }
run (exits code) answers = record { made = []; end = exited code }
run (calls c next) answers =
    let rest = run (next (answers 0)) (λ n. answers (n + 1)) in
    record { made = c ∷ rest.made; end = rest.end }

-- the parts among the calls
unfoldable pub parts : List Call → List Part
parts [] = []
parts (does part ∷ made) = part ∷ parts made
parts (_ ∷ made) = parts made

-- `gen_server_sock` gives NULL exactly when `socket`, `bind` or `calloc` fails: whether `accept`
-- does makes no difference, and the connection is then whatever it has answered.
pub gen_server_sock-null :
    (answers : ℕ → ℕ)
    → let r = run gen_server_sock answers in
      let failed = negative (answers 0) || negative (answers 1) || (answers 4 == 0) in
      r.end ≡ returned (if failed then none else some (answers 3))
unfolding run gen_server_sock new_sock
gen_server_sock-null answers = ground arith

-- the descriptors that the calls close, in order
unfoldable pub closed : List Call → List ℕ
closed [] = []
closed (close fd ∷ made) = fd ∷ closed made
closed (_ ∷ made) = closed made

-- the parts that a process runs, what it closes, and its end
pub record Course : Type 0 where
  pub ran : List Part
  pub shut : List ℕ
  pub end : End ℕ

abbrev pub course : List Part → List ℕ → End ℕ → Course
course ran shut end = record { ran = ran; shut = shut; end = end }

abbrev pub course_of : Ran ℕ → Course
course_of r = course (parts r.made) (closed r.made) r.end

-- Do these answers keep a client from its connection? They are those to `gethostbyname`, `socket`,
-- `connect` and `calloc`.
abbrev pub no_server : ℕ → ℕ → ℕ → ℕ → Bool
no_server host fd connected memory = host == 0 || negative fd || negative connected || memory == 0

-- The same of a server, with the answers to `socket`, `bind` and `calloc`.
abbrev pub no_client : ℕ → ℕ → ℕ → Bool
no_client fd bound memory = negative fd || negative bound || memory == 0

-- what the server does, by its arguments and the answers of the system
abbrev pub server_course : ℕ → (ℕ → ℕ) → Course
server_course argc answers =
    if ltb argc 3
    then course [] [] (returned 0)
    else if no_server (answers 0) (answers 1) (answers 2) (answers 3)
    then course [] [] (exited 1)
    else if no_client (answers 5) (answers 6) (answers 9)
    then course (alloc_init ∷ alloc_final ∷ []) (answers 1 ∷ []) (exited 1)
    else course (alloc_init ∷ interpret ∷ alloc_final ∷ []) (answers 8 ∷ answers 1 ∷ [])
        (returned 0)

-- what the disk manager does
abbrev pub disk_mgr_course : ℕ → (ℕ → ℕ) → Course
disk_mgr_course argc answers =
    if ltb argc 2
    then course [] [] (returned 0)
    else if negative (answers 0)
    then course [] [] (exited 1)
    else if negative_long (answers 1)
    then course [] [] (exited 2)
    else if not (answers 2 == 1)
    then course [] [] (exited 3)
    else if answers 3 == 2 ^ 64 - 1
    then course [] [] (exited 4)
    else if no_client (answers 4) (answers 5) (answers 8)
    then course [] (answers 0 ∷ []) (exited 1)
    else course (serv_loop ∷ []) (answers 7 ∷ answers 0 ∷ []) (returned 0)
