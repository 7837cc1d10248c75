-- ===== src/Client/Serve.antt =====
-- src/server.c: `cat` of a file, up to its last message.
use cs356_mini_file_system.Server.Interpret.{answer_error, cat_request, perform, stay}
use cs356_mini_file_system.Paths.{FilePath, get_path, id_of}
use cs356_mini_file_system.Store.Bind.{run-bind_ok}
use cs356_mini_file_system.Alloc.Bitmap.{i_occupied}
use cs356_mini_file_system.Base.{
  Bool, List, [], ap, append_assoc, false, length, map, some, true, ℕ, ◌++◌, ◌<◌, ◌==◌, ◌∙◌, ◌∷◌,
  ◌≡◌,
}
use cs356_mini_file_system.Utils.Text.{Text, c_string, codes, str_eq}
use cs356_mini_file_system.Utils.Socket.{packet, get_msg as socket_get, send_msg as socket_send}
use cs356_mini_file_system.Utils.Decimal.{itoa, to_long}
use cs356_mini_file_system.Layout.{Inode, to_inode}
use cs356_mini_file_system.Store.Run.{IsZone, run-pure, run-read, run-state}
use cs356_mini_file_system.Store.Spec.{Store, run, zone_limit}
use cs356_mini_file_system.Fs.Data.{get_cat_len}
use cs356_mini_file_system.Fs.Size.{to_int}
use cs356_mini_file_system.Fs.Show.{cat_file, replied}
use cs356_mini_file_system.Fs.Show.Stream.{connected, expects}
use cs356_mini_file_system.Fs.Show.Whole.{IsFile, cat_file-Streams, file_zones, text_at}
use cs356_mini_file_system.Server.{cat, send_file, with_path, with_state, with_zone}
use cs356_mini_file_system.Utils.Socket.{get_msg as socket_get, send_msg as socket_send}
use cs356_mini_file_system.Store.Prog.{Prog, ok, pure, ◌>>◌}

-- what the client sends and what the server sends when `cat` shows these texts
abbrev pub asked : List Text → List (List ℕ)
asked texts = packet (codes "ACK") ∷ expects texts

abbrev pub answered : List Text → List (List ℕ)
answered texts = packet (codes "2") ∷ (packet (itoa (length texts)) ∷ map packet texts)

module _ (s : Store) (id : ℕ) (z : IsZone id) where
  abbrev inode : Inode
  inode = to_inode (s.zones id)

  -- the texts of the file's data zones
  abbrev pub texts_in : List Text
  texts_in = map (text_at s.zones) (file_zones s.zones inode.ptrs)

  send_file-answered :
      IsFile s.zones inode.ptrs
      → to_long (get_cat_len (to_int inode.size)) ≡ length texts_in
      → (rest out : List (List ℕ))
      → run (send_file id inode) (connected s (asked texts_in ++ rest) out)
        ≡ ok tt (connected s rest (out ++ answered texts_in))
  unfolding send_file replied run packet socket_get socket_send str_eq c_string
  send_file-answered file size rest out =
      let out2 = out ++ packet (codes "2") ∷ [] in
      ap
        (λ n.
          run (cat_file id) (connected s (expects texts_in ++ rest) (out2 ++ packet (itoa n) ∷ [])))
        size
      ∙ cat_file-Streams s z file rest (out2 ++ packet (itoa (length texts_in)) ∷ [])
      ∙ ap (λ o. ok tt (connected s rest o))
          (append_assoc out2 (packet (itoa (length texts_in)) ∷ []) (map packet texts_in)
            ∙ append_assoc out (packet (codes "2") ∷ [])
                (packet (itoa (length texts_in)) ∷ map packet texts_in))

-- The search finds the path and leaves this store, whatever is on its way over the connection.
abbrev pub Finds : Store → FilePath → Text → FilePath → Store → Type 0
Finds s pwd path p s' =
    (text : Text) × ((inbox outbox : List (List ℕ))
      → run (get_path pwd path) (connected s inbox outbox)
        ≡ ok (some p, text) (connected s' inbox outbox))

-- a file that `cat` can show
pub record IsShown (s : Store) (id : ℕ) : Type 0 where
  pub zone : IsZone id
  pub tracked : id < zone_limit
  pub state : s.states id ≡ i_occupied
  pub file : IsFile s.zones (to_inode (s.zones id)).ptrs
  pub size :
      to_long (get_cat_len (to_int (to_inode (s.zones id)).size)) ≡ length (texts_in s id zone)

pub perform-answered :
    (fuel : ℕ) (s s' : Store) (pwd p : FilePath) (path : Text) (rest out : List (List ℕ))
    → Finds s pwd path p s'
    → (shown : IsShown s' (id_of p))
    → let texts = texts_in s' (id_of p) shown.zone in
      run (perform fuel pwd (cat_request path)) (connected s (asked texts ++ rest) out)
      ≡ ok (some pwd) (connected s' rest (out ++ answered texts))
unfolding perform stay answer_error cat with_path with_state with_zone
perform-answered fuel s s' pwd p path rest out finds shown =
    let id = id_of p in
    let texts = texts_in s' id shown.zone in
    let show_zone : List ℕ → Prog Bool = λ zone. (do send_file id (to_inode zone); pure false) in
    let S = connected s (asked texts ++ rest) out in
    let S1 = connected s' (asked texts ++ rest) out in
    let S2 = connected s' rest (out ++ answered texts) in
    let sent : run (cat pwd path) S ≡ ok false S2 =
      run-bind_ok (get_path pwd path) _ S (finds.1 (asked texts ++ rest) out)
      ∙ run-state S1 _ shown.zone shown.tracked
      ∙ ap
          (λ found.
            run (elim (found == i_occupied) [ false ↦ pure true | true ↦ with_zone id show_zone ])
              S1)
          shown.state
      ∙ run-read S1 _ shown.zone
      ∙ run-bind_ok (send_file id (to_inode (s'.zones id))) _ S1
          (send_file-answered s' id shown.zone shown.file shown.size rest out)
      ∙ run-pure false S2 in
    run-bind_ok (answer_error (cat pwd path)) _ S
      (run-bind_ok (cat pwd path) _ S sent ∙ run-pure tt S2)
    ∙ run-pure (some pwd) S2
