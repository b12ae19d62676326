-- ===== src/Bridge/Bots/Laws.antt =====
-- The requests of pyttch-bridge/src/control.rs: updates, authentication, sequences of them.
use hermytt.Prelude.{
  ◌≡◌, refl, sym, ap, ◌∙◌, Bool, true, false, not, ◌||◌, List, [], ◌∷◌, ◌++◌, Option, none, some,
  if◌then◌else◌, arith, Bool-cases, inl, inr, length, is_empty, any, keep, find_by, ◌==◌,
}
use hermytt.Prelude.Text.{Text, codes, eq_text, eq_text_iff, eq_text_refl, contains, starts_with}
use hermytt.Bridge.Bots.{
  BotConfig, BotPayload, State, Request, view, has_id, redacted, filled, real_token, set, set_text,
  apply_payload, update_first, update_bot, add_bot, add_valid, delete_bot, save, answer, handle,
}

-- A view sent back as the body of an update.
abbrev pub as_payload : BotConfig → BotPayload
as_payload b = record {
  id = some b.id;
  token = some b.token;
  allowed_chat_ids = b.allowed_chat_ids;
  apytti = some b.apytti;
  backend = b.backend;
  model = b.model;
  effort = b.effort;
  dir = b.dir;
  media_dir = b.media_dir;
  session_id = b.session_id;
  parse_mode = b.parse_mode;
  verbosity = b.verbosity;
}

set-same : (o : Option Text) → set o o ≡ o
set-same none = refl
set-same (some t) = refl

filled-same : (t : Text) → set_text (filled (some t)) t ≡ t
filled-same [] = refl
filled-same (c ∷ cs) = refl

token-same : (t : Text) → set_text (real_token (some (if is_empty t then [] else redacted))) t ≡ t
unfolding eq_text
token-same [] = refl
token-same (c ∷ cs) = refl

chats-same : (cs : List Text) → (if is_empty cs then cs else cs) ≡ cs
chats-same [] = refl
chats-same (c ∷ cs) = refl

apply-view : (b : BotConfig) → apply_payload (as_payload (view b)) b ≡ b
unfolding apply_payload view eq_text
apply-view b =
    rw
      (
        token-same b.token,
        chats-same b.allowed_chat_ids,
        filled-same b.apytti,
        set-same b.backend,
        set-same b.model,
        set-same b.effort,
        set-same b.dir,
        set-same b.media_dir,
        set-same b.session_id,
        set-same b.parse_mode,
        set-same b.verbosity,
      )
      refl

update_first-same :
    (id : Text) (p : BotPayload) (b : BotConfig) (bs : List BotConfig)
    → find_by (has_id id) bs ≡ some b
    → apply_payload p b ≡ b
    → (update_first id (apply_payload p) bs ≡ bs) × (any (has_id id) bs ≡ true)
update_first-same id p b [] h e = cc
update_first-same id p b (a ∷ bs) h e = elim (Bool-cases (has_id id a)) [
  | inl t ↦ (rw t (ap (λ c. c ∷ bs) (fixed (found t))), rw t refl)
  | inr t ↦ (
    rw t (ap (λ cs. a ∷ cs) (update_first-same id p b bs (ground (arith, h, t)) e).0),
    rw t (update_first-same id p b bs (ground (arith, h, t)) e).1,
  )
]
  where
    found : has_id id a ≡ true → a ≡ b
    found t = ground (arith, h, t)

    fixed : a ≡ b → apply_payload p a ≡ a
    fixed q = ap (apply_payload p) q ∙ e ∙ sym q

-- Sending what a bot reads as back in an update changes nothing about the bots: its token, shown as
-- "***", stays, and so does every other field, empty ones included.
pub update_bot-view :
    (s : State) (id : Text) (b : BotConfig) (saves : Bool)
    → find_by (has_id id) s.bots ≡ some b
    → (update_bot s id (some (as_payload (view b))) saves).0.bots ≡ s.bots
unfolding update_bot save
update_bot-view s id b saves h =
    let (same, there) = update_first-same id (as_payload (view b)) b s.bots h (apply-view b) in
    rw (there, same) (ground arith)

starts_with-append : (p t : Text) → starts_with p (p ++ t) ≡ true
unfolding starts_with
starts_with-append [] t = refl
starts_with-append (c ∷ cs) t = ground (arith, starts_with-append cs t)

contains-inside : (before p after : Text) → contains p (before ++ (p ++ after)) ≡ true
unfolding contains
contains-inside (c ∷ cs) p after = ground (arith, contains-inside cs p after)
contains-inside [] p after = here (p ++ after) (starts_with-append p after)
  where
    here : (t : Text) → starts_with p t ≡ true → contains p t ≡ true
    here [] h = h
    here (c ∷ cs) h = ground (arith, h)

-- A request without any key is answered as one with the right key is, whatever it asks for, as soon
-- as its Cookie header has the name of the session cookie in it: what the cookie says is not
-- looked at.
pub handle-forged_cookie :
    (s : State) (before after : Text) (r : Request) (saves : Bool)
    → handle s [] (some (before ++ (codes "hermytt_session=" ++ after))) r saves
      ≡ handle s (s.auth_token ∷ []) none r saves
unfolding handle
handle-forged_cookie s before after r saves =
    rw (contains-inside before (codes "hermytt_session=") after, eq_text_refl s.auth_token)
      (ground arith)

-- No two bots have one id.
abbrev pub UniqueIds : List BotConfig → Type 0
UniqueIds [] = Unit
UniqueIds (b ∷ bs) = (any (has_id b.id) bs ≡ false) × UniqueIds bs

record Inv (s : State) : Type 0 where
  pub ids : UniqueIds s.bots
  pub synced : s.file ≡ s.bots

any-update_first :
    (id k : Text) (p : BotPayload) (bs : List BotConfig)
    → any (has_id k) (update_first id (apply_payload p) bs) ≡ any (has_id k) bs
unfolding apply_payload
any-update_first id k p [] = refl
any-update_first id k p (b ∷ bs) = ground (arith, any-update_first id k p bs)

any-keep :
    (id k : Text) (bs : List BotConfig)
    → any (has_id k) bs ≡ false
    → any (has_id k) (keep (λ b. not (has_id id b)) bs) ≡ false
any-keep id k [] h = refl
any-keep id k (b ∷ bs) h = ground (arith, any-keep id k bs, h)

any-concat :
    (k : Text) (bs : List BotConfig) (b : BotConfig)
    → any (has_id k) (bs ++ b ∷ []) ≡ any (has_id k) bs || has_id k b
any-concat k [] b = ground arith
any-concat k (c ∷ bs) b = ground (arith, any-concat k bs b)

update_first-UniqueIds :
    (id : Text) (p : BotPayload) (bs : List BotConfig)
    → UniqueIds bs
    → UniqueIds (update_first id (apply_payload p) bs)
unfolding apply_payload
update_first-UniqueIds id p [] h = tt
update_first-UniqueIds id p (b ∷ bs) h = elim (Bool-cases (has_id id b)) [
  | inl t ↦ rw t h
  | inr t ↦ rw t (any-update_first id b.id p bs ∙ h.0, update_first-UniqueIds id p bs h.1)
]

keep-UniqueIds :
    (id : Text) (bs : List BotConfig) → UniqueIds bs → UniqueIds (keep (λ b. not (has_id id b)) bs)
keep-UniqueIds id [] h = tt
keep-UniqueIds id (b ∷ bs) h = elim (Bool-cases (has_id id b)) [
  | inl t ↦ rw t (keep-UniqueIds id bs h.1)
  | inr t ↦ rw t (any-keep id b.id bs h.0, keep-UniqueIds id bs h.1)
]

concat-UniqueIds :
    (bs : List BotConfig) (b : BotConfig)
    → any (has_id b.id) bs ≡ false
    → UniqueIds bs
    → UniqueIds (bs ++ b ∷ [])
concat-UniqueIds [] b n h = (refl, tt)
concat-UniqueIds (c ∷ bs) b n h = (
  rw (any-concat c.id bs b) (ground (arith, h.0, n, eq_text_iff b.id c.id, eq_text_iff c.id b.id)),
  concat-UniqueIds bs b (ground (arith, n)) h.1,
)

save-Inv :
    (s : State) (new : List BotConfig) (saves : Bool)
    → UniqueIds new
    → Inv s
    → Inv (save s new saves).0
unfolding save
save-Inv s new true n v = record { ids = n; synced = refl }
save-Inv s new false n v = v

add_valid-Inv :
    (s : State) (p : BotPayload) (i t a : Option Text) (saves : Bool)
    → Inv s
    → Inv (add_valid s p i t a saves).0
unfolding add_valid
add_valid-Inv s p (some i) (some t) (some a) saves v = elim (Bool-cases (any (has_id i) s.bots)) [
  | inl q ↦ rw q v
  | inr q ↦ rw q (save-Inv s _ saves (concat-UniqueIds s.bots _ q v.ids) v)
]
add_valid-Inv s p none t a saves v = v
add_valid-Inv s p (some i) none a saves v = v
add_valid-Inv s p (some i) (some t) none saves v = v

answer-Inv : (s : State) (r : Request) (saves : Bool) → Inv s → Inv (answer s r saves).0
unfolding answer add_bot update_bot delete_bot
answer-Inv s Request.health saves v = v
answer-Inv s Request.get_bots saves v = v
answer-Inv s (Request.post_bots none) saves v = v
answer-Inv s (Request.post_bots (some p)) saves v =
    add_valid-Inv s p (filled p.id) (real_token p.token) (filled p.apytti) saves v
answer-Inv s (Request.get_one id) saves v = v
answer-Inv s (Request.put_one id none) saves v = v
answer-Inv s (Request.put_one id (some p)) saves v = elim (Bool-cases (any (has_id id) s.bots)) [
  | inl q ↦ rw q (save-Inv s _ saves (update_first-UniqueIds id p s.bots v.ids) v)
  | inr q ↦ rw q v
]
answer-Inv s (Request.delete_one id) saves v =
    elim (Bool-cases (length (keep (λ b. not (has_id id b)) s.bots) == length s.bots)) [
      | inl q ↦ rw q v
      | inr q ↦ rw q (save-Inv s _ saves (keep-UniqueIds id s.bots v.ids) v)
    ]
answer-Inv s Request.other saves v = v

handle-Inv :
    (s : State) (keys : List Text) (cookie : Option Text) (r : Request) (saves : Bool)
    → Inv s
    → Inv (handle s keys cookie r saves).0
unfolding handle
handle-Inv s keys cookie r saves v = ground (arith, answer-Inv s r saves v, v)

-- The requests as they are handled one after the other.
pub serve : State → List (List Text × Option Text × Request × Bool) → State
serve s [] = s
serve s ((keys, cookie, r, saves) ∷ rs) = serve (handle s keys cookie r saves).0 rs

-- Through any requests, saved or not, no two bots come to have one id, and the file holds the bots
-- that the process does, if this was so at the start.
pub serve-Inv :
    (s : State) (rs : List (List Text × Option Text × Request × Bool))
    → UniqueIds s.bots
    → s.file ≡ s.bots
    → UniqueIds (serve s rs).bots × ((serve s rs).file ≡ (serve s rs).bots)
unfolding serve
serve-Inv s [] u e = (u, e)
serve-Inv s ((keys, cookie, r, saves) ∷ rs) u e =
    let v : Inv (handle s keys cookie r saves).0 = kept in
    serve-Inv (handle s keys cookie r saves).0 rs v.ids v.synced
  where
    kept : Inv (handle s keys cookie r saves).0
    kept = handle-Inv s keys cookie r saves (record { ids = u; synced = e })
