-- ===== src/Transport/Terminal/Typed.antt =====
-- hermytt-transport/src/rest.rs: what reaches the shell and the client over a terminal's WebSocket.
use hermytt.Prelude.{
  ℕ, ◌≡◌, refl, sym, ap, ◌∙◌, Bool, true, false, not, List, [], ◌∷◌, ◌++◌, Option, none, some,
  is_none, if◌then◌else◌, is_empty, ◌&&◌, ◌||◌, Bool-cases, Option-cases, inl, inr, append_assoc,
  append-nil,
}
use hermytt.Prelude.Text.{Text, codes, eq_text, join}
use hermytt.Prelude.Json.{Json, get}
use hermytt.Prelude.Map.{Map}
use hermytt.Core.Sessions.{pty_exit_sentinel}
use hermytt.Transport.Terminal.{
  text, binary, close, other, Seen, output, no_output, message, Notice, said, exit, image_saved,
  Terminal, add_size, resize_by, store_image, paste_from, paste_by, control_of, on_message,
  on_output, see, socket_loop, handle_ws_socket,
}

-- The terminal's text among what was sent.
abbrev pub screen : List Notice → List Text
screen [] = []
screen (said t ∷ ns) = t ∷ screen ns
screen (exit ∷ ns) = screen ns
screen (image_saved n ∷ ns) = screen ns

screen-append : (ms ns : List Notice) → screen (ms ++ ns) ≡ screen ms ++ screen ns
screen-append [] ns = refl
screen-append (said t ∷ ms) ns = ap (λ w. t ∷ w) (screen-append ms ns)
screen-append (exit ∷ ms) ns = screen-append ms ns
screen-append (image_saved n ∷ ms) ns = screen-append ms ns

-- A step that leaves the shell and the screen alone.
abbrev Quiet : Terminal → Terminal → Type 0
Quiet s t = (t.to_stdin ≡ s.to_stdin) × (screen t.to_client ≡ screen s.to_client)

resize_by-Quiet : (val : Json) (s : Terminal) → Quiet s (resize_by val s)
unfolding resize_by
resize_by-Quiet val s = by_size _ _
  where
    by_size : (a b : Option ℕ) → Quiet s (add_size a b s)
    by_size (some c) (some r) = (refl, refl)
    by_size (some c) none = (refl, refl)
    by_size none b = (refl, refl)

store_image-Quiet :
    (ts : Text) (name : Option Text) (ok : Bool) (o : Option Text) (s : Terminal)
    → Quiet s (store_image ts name ok o s)
store_image-Quiet ts name ok none s = (refl, refl)
store_image-Quiet ts name ok (some bytes) s = elim (Bool-cases ok) [
  | inl q ↦ rw q (refl, screen-append s.to_client _ ∙ append-nil (screen s.to_client))
  | inr q ↦ rw q (refl, refl)
]

abbrev pub history_shown : List Text → List Text
history_shown history =
    let lines = join (codes "\n") history in if is_empty lines then [] else lines ∷ []

module _ (from_str : Text → Option Json) (base64 : Text → Option Text) (lossy : Text → Text) where
  paste_by-Quiet :
      (d : Bool) (ts : Text) (ok : Bool) (val : Json) (s : Terminal)
      → Quiet s (paste_by from_str base64 lossy d ts ok val s)
  unfolding paste_by
  paste_by-Quiet d ts ok val s = by_paste (get (codes "paste_image") val)
    where
      by_paste : (o : Option Json) → Quiet s (paste_from from_str base64 lossy d ts ok o s)
      by_paste none = (refl, refl)
      by_paste (some paste) = elim (Bool-cases d) [
        | inl q ↦ rw q (store_image-Quiet ts _ ok _ s)
        | inr q ↦ rw q (refl, refl)
      ]

  -- What an event types into the shell, and what it puts on the screen.
  abbrev pub typed_by : Seen → List Text
  typed_by (output bytes sent) = []
  typed_by no_output = []
  typed_by (message (text t) taken ts ok) =
      if is_none (control_of from_str t) && taken then t ∷ [] else []
  typed_by (message (binary b) taken ts ok) = if taken then b ∷ [] else []
  typed_by (message close taken ts ok) = []
  typed_by (message other taken ts ok) = []

  abbrev pub shown_by : Seen → List Text
  shown_by (output bytes sent) =
      if not (eq_text bytes pty_exit_sentinel) && sent then lossy bytes ∷ [] else []
  shown_by no_output = []
  shown_by (message m taken ts ok) = []

  -- After it the loop is over.
  abbrev pub is_end : Seen → Bool
  is_end (output bytes sent) = eq_text bytes pty_exit_sentinel || not sent
  is_end no_output = true
  is_end (message (text t) taken ts ok) = is_none (control_of from_str t) && not taken
  is_end (message (binary b) taken ts ok) = not taken
  is_end (message close taken ts ok) = true
  is_end (message other taken ts ok) = false

  -- An event's contributions, up to the end.
  unfoldable pub until_end : (Seen → List Text) → List Seen → List Text
  until_end f [] = []
  until_end f (e ∷ es) = f e ++ (if is_end e then [] else until_end f es)

  abbrev Contributes : Seen → Terminal → Terminal × Bool → Type 0
  Contributes e s r =
      (r.0.to_stdin ≡ s.to_stdin ++ typed_by e)
      × (screen r.0.to_client ≡ screen s.to_client ++ shown_by e)
      × (r.1 ≡ not (is_end e))

  nothing_new :
      (s : Terminal)
      → (s.to_stdin ≡ s.to_stdin ++ []) × (screen s.to_client ≡ screen s.to_client ++ [])
  nothing_new s = (sym (append-nil s.to_stdin), sym (append-nil (screen s.to_client)))

  see-Contributes :
      (d : Bool) (e : Seen) (s : Terminal) → Contributes e s (see from_str base64 lossy d e s)
  unfolding see on_output on_message
  see-Contributes d no_output s = ((nothing_new s).0, (nothing_new s).1, refl)
  see-Contributes d (message close taken ts ok) s = ((nothing_new s).0, (nothing_new s).1, refl)
  see-Contributes d (message other taken ts ok) s = ((nothing_new s).0, (nothing_new s).1, refl)
  see-Contributes d (message (binary b) taken ts ok) s = elim (Bool-cases taken) [
    | inl q ↦ rw q (refl, (nothing_new s).1, refl)
    | inr q ↦ rw q ((nothing_new s).0, (nothing_new s).1, refl)
  ]
  see-Contributes d (message (text t) taken ts ok) s = elim (Option-cases (control_of from_str t)) [
    | inl e ↦ elim (Bool-cases taken) [
      | inl q ↦ rw (e, q) (refl, (nothing_new s).1, refl)
      | inr q ↦ rw (e, q) ((nothing_new s).0, (nothing_new s).1, refl)
    ]
    | inr (val, e) ↦
        let (t1, c1) = resize_by-Quiet val s in
        let (t2, c2) = paste_by-Quiet d ts ok val (resize_by val s) in
        rw e (t2 ∙ t1 ∙ (nothing_new s).0, c2 ∙ c1 ∙ (nothing_new s).1, refl)
  ]
  see-Contributes d (output bytes sent) s = elim (Bool-cases (eq_text bytes pty_exit_sentinel)) [
    | inl e ↦ rw e ((nothing_new s).0, screen-append s.to_client (exit ∷ []), refl)
    | inr e ↦ elim (Bool-cases sent) [
      | inl q ↦
          rw (e, q) ((nothing_new s).0, screen-append s.to_client (said (lossy bytes) ∷ []), refl)
      | inr q ↦ rw (e, q) ((nothing_new s).0, (nothing_new s).1, refl)
    ]
  ]

  loop-Contributes :
      (d : Bool) (es : List Seen) (s : Terminal)
      → ((socket_loop from_str base64 lossy d es s).to_stdin ≡ s.to_stdin ++ until_end typed_by es)
        × (screen (socket_loop from_str base64 lossy d es s).to_client
            ≡ screen s.to_client ++ until_end shown_by es)
  unfolding socket_loop until_end
  loop-Contributes d [] s = nothing_new s
  loop-Contributes d (e ∷ es) s =
      let next = (see from_str base64 lossy d e s).0 in
      let (t, c, g) = see-Contributes d e s in
      let rest = loop-Contributes d es next in
      elim (Bool-cases (is_end e)) [
        | inl q ↦
            rw (g, q)
              (
                t ∙ ap (λ w. s.to_stdin ++ w) (sym (append-nil (typed_by e))),
                c ∙ ap (λ w. screen s.to_client ++ w) (sym (append-nil (shown_by e))),
              )
        | inr q ↦
            rw (g, q)
              (
                rest.0
                    ∙ ap (λ w. w ++ until_end typed_by es) t
                    ∙ append_assoc s.to_stdin (typed_by e) (until_end typed_by es),
                rest.1
                    ∙ ap (λ w. w ++ until_end shown_by es) c
                    ∙ append_assoc (screen s.to_client) (shown_by e) (until_end shown_by es),
              )
      ]

  -- Until the connection or the session ends, the shell gets every text of the client that is no
  -- JSON beginning with a brace, and all its bytes, in order and nothing else; and the client gets
  -- the history, if there is any, and after it every output, in order, whatever sizes and images
  -- come in between.
  pub handle_ws_socket-until_end :
      (history : List Text) (files : Map Text) (has_dir : Bool) (es : List Seen)
      → let s = handle_ws_socket from_str base64 lossy history files has_dir es in
        (s.to_stdin ≡ until_end typed_by es)
        × (screen s.to_client ≡ history_shown history ++ until_end shown_by es)
  unfolding handle_ws_socket
  handle_ws_socket-until_end history files has_dir es =
      elim (Bool-cases (is_empty (join (codes "\n") history))) [
        | inl q ↦ rw q (loop-Contributes has_dir es _)
        | inr q ↦ rw q (loop-Contributes has_dir es _)
      ]
