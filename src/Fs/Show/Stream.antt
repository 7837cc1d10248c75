-- ===== src/Fs/Show/Stream.antt =====
-- src/fs_lib.c: `cat_file` and the messages between it and the client.
use cs356_mini_file_system.Fs.Release.Inode.{each_ptr-ptr, each_ptr-zero, used_ptrs}
use cs356_mini_file_system.Fs.Release.{each_ptr}
use cs356_mini_file_system.Store.Prog.{Prog, and_then, ok, on_read, on_send, pure, ◌>>=◌}
use cs356_mini_file_system.Store.Spec.{Store, run}
use cs356_mini_file_system.Store.Run.{IsZone, run-pure, run-read}
use cs356_mini_file_system.Store.Bind.{run-bind}
use cs356_mini_file_system.Base.{
  ==_iff, All, Bool, Bool-cases, List, Option, [], ap, append-nil, append_assoc, false,
  if◌then◌else◌, inl, inr, map, refl, some, subst, sym, true, ℕ, ◌++◌, ◌==◌, ◌∙◌, ◌∷◌, ◌≡◌,
}
use cs356_mini_file_system.Utils.Text.{Text, c_string, codes, str_eq}
use cs356_mini_file_system.Utils.Socket.{packet, get_msg as socket_get, send_msg as socket_send}
use cs356_mini_file_system.Fs.Show.{cat_data, on_expect, replied}

-- the state with these packets on the way from the client and to it
abbrev pub connected : Store → List (List ℕ) → List (List ℕ) → Store
connected s inbox outbox = record s {
  world = record (s.world) { sock = record { inbox = inbox; outbox = outbox } };
}

-- a request of the client for each message
abbrev pub expects : List Text → List (List ℕ)
expects texts = map (λ text. packet (codes "EXPECT")) texts

-- The program takes a request from the client for each text, sends the texts in this order, and
-- changes nothing else.
abbrev pub Streams : {A : Type 0} → Prog A → Store → A → List Text → Type 0
Streams m s a texts =
    (rest out : List (List ℕ))
    → run m (connected s (expects texts ++ rest) out)
      ≡ ok a (connected s rest (out ++ map packet texts))

pub map-append :
    {A B : Type 0} (f : A → B) (xs ys : List A) → map f (xs ++ ys) ≡ map f xs ++ map f ys
map-append f [] ys = refl
map-append f (x ∷ xs) ys = ap (λ l. f x ∷ l) (map-append f xs ys)

pub Streams-pure : {A : Type 0} (a : A) (s : Store) → Streams (pure a) s a []
Streams-pure a s rest out =
    run-pure a _ ∙ ap (λ o. ok a (connected s rest o)) (sym (append-nil out))

pub Streams-bind :
    {A B : Type 0} (m : Prog A) (f : A → Prog B) (s : Store) {a : A} {b : B}
    (texts more : List Text)
    → Streams m s a texts
    → Streams (f a) s b more
    → Streams (m >>= f) s b (texts ++ more)
Streams-bind m f s {a} {b} texts more h k rest out =
    let before = connected s (expects (texts ++ more) ++ rest) out in
    run-bind m f before
    ∙ ap (λ i. and_then (run m (connected s i out)) (λ x s'. run (f x) s'))
        (ap (λ l. l ++ rest) (map-append (λ text. packet (codes "EXPECT")) texts more)
          ∙ append_assoc (expects texts) (expects more) rest)
    ∙ ap (λ o. and_then o (λ x s'. run (f x) s')) (h (expects more ++ rest) out)
    ∙ k rest (out ++ map packet texts)
    ∙ ap (λ o. ok b (connected s rest o))
        (append_assoc out (map packet texts) (map packet more)
          ∙ ap (λ l. out ++ l) (sym (map-append packet texts more)))

-- a read of a zone in front of the messages
pub Streams-read :
    {A : Type 0} (s : Store) {id : ℕ} (next : Option (List ℕ) → Prog A) {a : A} (texts : List Text)
    → IsZone id
    → Streams (next (some (s.zones id))) s a texts
    → Streams (on_read id next) s a texts
Streams-read s next texts z h rest out = run-read _ next z ∙ h rest out

run-send :
    (s : Store) (msg : Text) (rest out : List (List ℕ))
    → run (on_send msg (pure tt)) (connected s rest out)
      ≡ ok tt (connected s rest (out ++ packet msg ∷ []))
unfolding run socket_send
run-send s msg rest out = refl

Streams-on_expect :
    (m : Prog (Unit {0})) (s : Store) (text : Text)
    → ((rest out : List (List ℕ))
        → run m (connected s rest out) ≡ ok tt (connected s rest (out ++ packet text ∷ [])))
    → Streams (on_expect m) s tt (text ∷ [])
unfolding on_expect replied run packet socket_get str_eq c_string
Streams-on_expect m s text h rest out = h rest out

pub cat_data-Streams :
    (s : Store) {id : ℕ} → IsZone id → Streams (cat_data id) s tt (c_string (s.zones id) ∷ [])
unfolding cat_data
cat_data-Streams s {id} z =
    Streams-on_expect _ s (c_string (s.zones id)) (λ rest out.
      run-read (connected s rest out) _ z ∙ run-send s (c_string (s.zones id)) rest out)

unfoldable pub concat_map : (ℕ → List ℕ) → List ℕ → List ℕ
concat_map f [] = []
concat_map f (p ∷ ps) = f p ++ concat_map f ps

-- Did the loop over these pointers run through?
unfoldable pub all_used : List ℕ → Bool
all_used [] = true
all_used (p ∷ ps) = if p == 0 then false else all_used ps

pub Streams-eq :
    {A : Type 0} {m m' : Prog A} (s : Store) {a a' : A} {texts : List Text} (texts' : List Text)
    → m ≡ m'
    → a ≡ a'
    → texts ≡ texts'
    → Streams m' s a' texts'
    → Streams m s a texts
Streams-eq {m' = m'} s {a} {a'} {texts} texts' p q r h =
    subst (λ n. Streams n s a texts) (sym p)
      (subst (λ b. Streams m' s b texts) (sym q) (subst (λ t. Streams m' s a' t) (sym r) h))

-- A loop whose body sends, for each pointer, the texts of the zones behind it.
module _ (s : Store) (text : ℕ → Text) (body : ℕ → Prog (Unit {0})) (zones_of : ℕ → List ℕ) where
  abbrev pub Each : List ℕ → Type 0
  Each ps = All (λ p. Streams (body p) s tt (map text (zones_of p))) (used_ptrs ps)

  pub each_ptr-Streams :
      (ps : List ℕ)
      → Each ps
      → Streams (each_ptr body ps) s (all_used ps) (map text (concat_map zones_of (used_ptrs ps)))
  unfolding each_ptr all_used concat_map used_ptrs
  each_ptr-Streams [] h = Streams-pure true s
  each_ptr-Streams (p ∷ ps) h = elim (Bool-cases (p == 0)) [
    | inl z ↦
        Streams-eq s [] (each_ptr-zero body p ps ((==_iff p 0).0 z)) (rw z refl) (rw z refl)
          (Streams-pure false s)
    | inr nz ↦
        let here : All (λ q. Streams (body q) s tt (map text (zones_of q))) (p ∷ used_ptrs ps) =
          subst (All (λ q. Streams (body q) s tt (map text (zones_of q)))) {y = p ∷ used_ptrs ps}
            (rw nz refl) h in
        Streams-eq s (map text (zones_of p) ++ map text (concat_map zones_of (used_ptrs ps)))
          (each_ptr-ptr body p ps nz) (rw nz refl)
          (rw nz (map-append text (zones_of p) (concat_map zones_of (used_ptrs ps))))
          (Streams-bind (body p) (λ _. each_ptr body ps) s (map text (zones_of p)) _ here.0
            (each_ptr-Streams ps here.1))
  ]
