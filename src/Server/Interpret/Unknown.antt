-- ===== src/Server/Interpret/Unknown.antt =====
-- src/server.c: `interpret` on requests that it does not know, up to `exit`.
use cs356_mini_file_system.Store.Prog.{Prog, ok, on_recv, pure, ◌>>=◌}
use cs356_mini_file_system.Store.Spec.{Store, run}
use cs356_mini_file_system.Base.{
  All, List, Option, [], ap, append-nil, append_assoc, arith, length, lt→ltb, map, none, refl, some,
  suc, sym, zero, ℕ, ◌++◌, ◌<◌, ◌∙◌, ◌∷◌, ◌≡◌,
}
use cs356_mini_file_system.Utils.Text.{IsText, Text, codes, str_eq}
use cs356_mini_file_system.Utils.Tokens.{get_toks, scan_toks}
use cs356_mini_file_system.Utils.Socket.{
  Sock, delivered, get_msg-packet, packet, send_msg as socket_send,
}
use cs356_mini_file_system.Paths.{FilePath}
use cs356_mini_file_system.Fs.Show.Stream.{connected}
use cs356_mini_file_system.Server.Interpret.{interpret, perform, request_of, unknown_request}

-- a request that arrives whole
pub record IsRequest (text : Text) : Type 0 where
  pub valid : IsText text
  pub short : length text < 127

abbrev pub IsUnknown : Text → Type 0
IsUnknown text = IsRequest text × (request_of (get_toks text 6) ≡ unknown_request)

-- the answers to the requests
abbrev pub answers : List Text → List (List ℕ)
answers texts = map (λ text. packet (codes "-1")) texts

run-recv :
    {A : Type 0} (s : Store) (next : Option Text → Prog A) (text : Text) (inbox out : List (List ℕ))
    → IsRequest text
    → run (on_recv next) (connected s (packet text ∷ inbox) out)
      ≡ run (next (some text)) (connected s inbox out)
unfolding run
run-recv s next text inbox out h =
    let e : delivered text inbox out ≡ (some text, record { inbox = inbox; outbox = out }) =
      rw (lt→ltb (length text) 127 h.short) refl in
    ap
      (λ (r : Option Text × Sock).
        run (next (r.0)) (record s { world = record (s.world) { sock = r.1 } }))
      (get_msg-packet text inbox out h.valid ∙ e)

module _ (fuel : ℕ) (pwd : FilePath) (s : Store) where
  interpret-request :
      (requests : ℕ) (text : Text) (inbox out : List (List ℕ))
      → IsRequest text
      → run (interpret (suc requests) fuel pwd) (connected s (packet text ∷ inbox) out)
        ≡ run
            (do
              next ← perform fuel pwd (request_of (get_toks text 6))
              elim next [ none ↦ pure tt | some pwd' ↦ interpret requests fuel pwd' ])
            (connected s inbox out)
  unfolding interpret
  interpret-request requests text inbox out h = run-recv s _ text inbox out h

  one_unknown :
      (requests : ℕ) (text : Text) (inbox out : List (List ℕ))
      → IsUnknown text
      → run (interpret (suc requests) fuel pwd) (connected s (packet text ∷ inbox) out)
        ≡ run (interpret requests fuel pwd) (connected s inbox (out ++ packet (codes "-1") ∷ []))
  unfolding perform run socket_send
  one_unknown requests text inbox out (h, e) =
      interpret-request requests text inbox out h
      ∙ ap
          (λ r.
            run
              (do
                next ← perform fuel pwd r
                elim next [ none ↦ pure tt | some pwd' ↦ interpret requests fuel pwd' ])
              (connected s inbox out))
          e

  exit-IsRequest : IsRequest (codes "exit")
  exit-IsRequest = record {
    valid = (omega arith, (omega arith, (omega arith, (omega arith, tt))));
    short = omega arith;
  }

  one_exit :
      (requests : ℕ) (inbox out : List (List ℕ))
      → run (interpret (suc requests) fuel pwd) (connected s (packet (codes "exit") ∷ inbox) out)
        ≡ ok tt (connected s inbox (out ++ packet (codes "3") ∷ []))
  unfolding perform run socket_send request_of get_toks scan_toks str_eq
  one_exit requests inbox out = interpret-request requests (codes "exit") inbox out exit-IsRequest

  -- On requests of at most 126 bytes that are not known, and `exit` behind them, `interpret`
  -- answers each with "-1" and the last with "3", in this order, and ends; it leaves what follows
  -- unread and changes no zone and no state.
  pub interpret-IsUnknown :
      (texts : List Text) (requests : ℕ) (rest out : List (List ℕ))
      → All IsUnknown texts
      → length texts < requests
      → run
          (interpret requests fuel pwd)
          (connected s (map packet texts ++ packet (codes "exit") ∷ rest) out)
        ≡ ok tt (connected s rest ((out ++ answers texts) ++ packet (codes "3") ∷ []))
  interpret-IsUnknown texts zero rest out h enough = absurd (omega arith)
  interpret-IsUnknown [] (suc requests) rest out h enough =
      one_exit requests rest out
      ∙ ap (λ o. ok tt (connected s rest (o ++ packet (codes "3") ∷ []))) (sym (append-nil out))
  interpret-IsUnknown (text ∷ texts) (suc requests) rest out h enough =
      one_unknown requests text (map packet texts ++ packet (codes "exit") ∷ rest) out h.0
      ∙ interpret-IsUnknown texts requests rest (out ++ packet (codes "-1") ∷ []) h.1 (omega arith)
      ∙ ap (λ o. ok tt (connected s rest (o ++ packet (codes "3") ∷ [])))
          (append_assoc out (packet (codes "-1") ∷ []) (answers texts))
