-- ===== src/Process.antt =====
-- How the programs start and end: the functions of src/utils.c that open and close connections, and
-- the `main` functions. What the system answers to a call is given from outside: an `int` as its bit
-- pattern of 32 bits, an `off_t` or a pointer as one of 64 bits. The loops and functions that other
-- modules model are calls of a part here.
pub mod Run
use cs356_mini_file_system.Base.{
  Bool, Option, false, if◌then◌else◌, leb, ltb, none, some, true, ℕ, ◌*◌, ◌+◌, ◌-◌, ◌==◌, ◌^◌,
}

pub data Part : Type 0 where
  serv_loop : Part
  alloc_init : Part
  interpret : Part
  alloc_final : Part
  cmd_loop : Part
  format : Part

pub data Call : Type 0 where
  gethostbyname : Call
  socket : Call
  connect : ℕ → Call
  bind : ℕ → Call
  listen : ℕ → Call
  accept : ℕ → Call
  calloc : Call
  close : ℕ → Call
  open_file : Call
  lseek : ℕ → ℕ → Call
  write_byte : ℕ → Call
  mmap : ℕ → ℕ → Call
  fork : Call
  system_disk_mgr : Call
  does : Part → Call

pub data Process (A : Type 0) : Type 0 where
  returns : A → Process A
  exits : ℕ → Process A
  calls : Call → (ℕ → Process A) → Process A

infixl 5 ◌>>=◌ ◌>>◌
abbrev pub ◌>>=◌ : {A B : Type 0} → Process A → (A → Process B) → Process B
returns a >>= f = f a
exits code >>= f = exits code
calls c next >>= f = calls c (λ answer. next answer >>= f)

abbrev pub ◌>>◌ : {A B : Type 0} → Process A → Process B → Process B
m >> k = m >>= λ _. k

abbrev pub call : Call → Process ℕ
call c = calls c returns

-- an `int` or an `off_t` below 0
abbrev pub negative : ℕ → Bool
negative w = leb (2 ^ 31) w

abbrev pub negative_long : ℕ → Bool
negative_long w = leb (2 ^ 63) w

-- a `signed int` that is put into a `size_t`
abbrev pub to_size : ℕ → ℕ
to_size w = if negative w then w + (2 ^ 64 - 2 ^ 32) else w

-- `calloc` of the `buf_sock` and the descriptor in it; `none` is NULL
unfoldable pub new_sock : ℕ → Process (Option ℕ)
new_sock sockfd = do sock ← call calloc; returns (if sock == 0 then none else some sockfd)

unfoldable pub get_client_sock : Process (Option ℕ)
get_client_sock = do
  server ← call gethostbyname
  elim (server == 0) [
    | true ↦ returns none
    | false ↦ do
      sockfd ← call socket
      elim (negative sockfd) [
        | true ↦ returns none
        | false ↦ do
          connected ← call (connect sockfd)
          elim (negative connected) [ true ↦ returns none | false ↦ new_sock sockfd ]
      ]
  ]

-- `gen_server_sock`. Its `sockfd` is a `size_t`, which is never below 0.
unfoldable pub gen_server_sock : Process (Option ℕ)
gen_server_sock = do
  serv_sockfd ← call socket
  elim (negative serv_sockfd) [
    | true ↦ returns none
    | false ↦ do
      bound ← call (bind serv_sockfd)
      elim (negative bound) [
        | true ↦ returns none
        | false ↦ do
          listening ← call (listen serv_sockfd)
          sockfd ← call (accept serv_sockfd)
          elim (ltb (to_size sockfd) 0) [ true ↦ returns none | false ↦ new_sock sockfd ]
      ]
  ]

unfoldable pub free_sock : Option ℕ → Process (Unit {0})
free_sock none = returns tt
free_sock (some sockfd) = do closed ← call (close sockfd); returns tt

abbrev pub file_size : ℕ
file_size = 512 * 32 * 128

-- `disk_init`: the descriptor of the disk file
unfoldable pub disk_init : Process ℕ
disk_init = do
  fd ← call open_file
  elim (negative fd) [
    | true ↦ exits 1
    | false ↦ do
      pos ← call (lseek fd (file_size - 1))
      elim (negative_long pos) [
        | true ↦ exits 2
        | false ↦ do
          written ← call (write_byte fd)
          elim (written == 1) [
            | false ↦ exits 3
            | true ↦ do
              diskfile ← call (mmap fd file_size)
              elim (diskfile == 2 ^ 64 - 1) [ true ↦ exits 4 | false ↦ returns fd ]
          ]
      ]
  ]

-- `err_exit` of the disk manager, on its socket and its file
unfoldable pub err_exit : {A : Type 0} → Option ℕ → ℕ → Process A
err_exit sock fd = do freed ← free_sock sock; closed ← call (close fd); exits 1

unfoldable pub main_of_disk_mgr : ℕ → Process ℕ
main_of_disk_mgr argc = elim (ltb argc 2) [
  | true ↦ returns 0
  | false ↦ do
    fd ← disk_init
    sock ← gen_server_sock
    elim sock [
      | none ↦ err_exit none fd
      | some sockfd ↦ do
        served ← call (does serv_loop)
        freed ← free_sock (some sockfd)
        closed ← call (close fd)
        returns 0
    ]
]

-- `alloc_init` of src/alloc.c, and `alloc_final` with its `free_sock`
unfoldable pub start_alloc : Process ℕ
start_alloc = do
  sock ← get_client_sock
  elim sock [ none ↦ exits 1 | some sockfd ↦ do read ← call (does alloc_init); returns sockfd ]

unfoldable pub finish_alloc : ℕ → Process (Unit {0})
finish_alloc disk = do written ← call (does alloc_final); free_sock (some disk)

unfoldable pub main_of_server : ℕ → Process ℕ
main_of_server argc = elim (ltb argc 3) [
  | true ↦ returns 0
  | false ↦ do
    disk ← start_alloc
    sock ← gen_server_sock
    elim sock [
      | none ↦ do finished ← finish_alloc disk; exits 1
      | some sockfd ↦ do
        interpreted ← call (does interpret)
        freed ← free_sock (some sockfd)
        finished ← finish_alloc disk
        returns 0
    ]
]

-- `main` of the client. The answer of `cmd_loop` is 0 if its loop ends, or the code of its `err_exit`,
-- which closes the socket too.
unfoldable pub main_of_client : ℕ → Process ℕ
main_of_client argc = elim (ltb argc 2) [
  | true ↦ exits 0
  | false ↦ do
    sock ← get_client_sock
    elim sock [
      | none ↦ exits 1
      | some sockfd ↦ do
        code ← call (does cmd_loop)
        freed ← free_sock (some sockfd)
        elim (code == 0) [ true ↦ returns 0 | false ↦ exits code ]
    ]
]

-- the parent runs the disk manager, the child formats
unfoldable pub main_of_format : ℕ → Process ℕ
main_of_format argc = elim (argc == 2) [
  | true ↦ returns 0
  | false ↦ do
    pid ← call fork
    elim (pid == 0) [
      | true ↦ do
        disk ← start_alloc
        formatted ← call (does format)
        finished ← finish_alloc disk
        returns 0
      | false ↦ elim (negative pid) [
        | true ↦ exits 1
        | false ↦ do ran ← call system_disk_mgr; returns 0
      ]
    ]
]
