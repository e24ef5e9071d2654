-- ===== src/Handler/Turns.antt =====
-- What a turn of a handler thread does to its queue.
use neshare.Base.{
  ℕ, ◌≤◌, ◌<◌, ◌≡◌, refl, sym, ap, ◌∙◌, true, false, not, List, [], ◌∷◌, ◌++◌, some, arith, ◌==◌,
  if◌then◌else◌, nat_key, length, filterb, append-nil, append_assoc, Bool-cases, inl, inr, ◌↔◌,
  filterb-append, ==_refl,
}
use neshare.Handler.{
  UserMsg, Verdict, user_ok, user_failed, user_remove, user_force, Handler, Server, stash, put_back,
  remove_user_from_msg_queue, add_msg_to_msg_queue, dispatch_message_handler, disconnect,
  after_verdict, take_turn,
}

-- The messages of the other users, in their order.
abbrev pub others : ℕ → List UserMsg → List UserMsg
others user queue = filterb (λ msg. not (msg.user == user)) queue

stash-others :
    (user : ℕ) (queue kept : List UserMsg) → stash user queue kept ≡ kept ++ others user queue
unfolding stash
stash-others user [] kept = sym (append-nil kept)
stash-others user (msg ∷ queue) kept = elim (Bool-cases (msg.user == user)) [
  | inl same ↦ rw same (stash-others user queue kept)
  | inr other ↦ rw other (
      stash-others user queue (kept ++ msg ∷ []) ∙ append_assoc kept (msg ∷ []) (others user queue))
]

put_back-append : (kept queue : List UserMsg) → put_back kept queue ≡ queue ++ kept
unfolding put_back
put_back-append [] queue = sym (append-nil queue)
put_back-append (msg ∷ kept) queue =
    put_back-append kept (queue ++ msg ∷ []) ∙ append_assoc queue (msg ∷ []) kept

remove_user-others :
    (h : Handler) (user : ℕ)
    → (remove_user_from_msg_queue h user).msg_queue ≡ others user h.msg_queue
unfolding remove_user_from_msg_queue
remove_user-others h user =
    put_back-append (stash user h.msg_queue []) [] ∙ stash-others user h.msg_queue []

length-others : (user : ℕ) (queue : List UserMsg) → length (others user queue) ≤ length queue
length-others user [] = omega arith
length-others user (msg ∷ queue) = ground (arith, length-others user queue)

-- What the queue is after a turn that gave this verdict.
abbrev pub left_over : Verdict → ℕ → List UserMsg → List UserMsg
left_over user_ok user rest = rest
left_over _ user rest = others user rest

-- What becomes of the server with this verdict.
abbrev pub consequence : (s : Server) → Verdict → s.State → UserMsg → s.State
consequence s user_ok st msg = st
consequence s user_remove st msg = s.handle_disconnect (s.set_disconnecting st msg.user) msg
consequence s _ st msg = s.handle_forced_disconnect (s.set_disconnecting st msg.user) msg

after_verdict-left :
    (s : Server) (h : Handler) (msg : UserMsg) (verdict : Verdict) (st : s.State)
    → let r = after_verdict s h msg (verdict, st) in
      (r.0.msg_queue ≡ left_over verdict msg.user h.msg_queue)
      × (r.1 ≡ consequence s verdict st msg)
unfolding after_verdict disconnect
after_verdict-left s h msg user_ok st = (refl, refl)
after_verdict-left s h msg user_failed st = (remove_user-others h msg.user, refl)
after_verdict-left s h msg user_remove st = (remove_user-others h msg.user, refl)
after_verdict-left s h msg user_force st = (remove_user-others h msg.user, refl)

length-left_over :
    (verdict : Verdict) (user : ℕ) (rest : List UserMsg)
    → length (left_over verdict user rest) ≤ length rest
length-left_over user_ok user rest = omega arith
length-left_over user_failed user rest = length-others user rest
length-left_over user_remove user rest = length-others user rest
length-left_over user_force user rest = length-others user rest

take_turn-first :
    (s : Server) (h : Handler) (st : s.State) (msg : UserMsg) (rest : List UserMsg)
    → h.msg_queue ≡ msg ∷ rest
    → take_turn s h st ≡ (
        let r =
          after_verdict s
            (record h { msg_queue = rest })
            msg
            (dispatch_message_handler s (s.lock_user_life st msg.user) msg) in
        (r.0, s.unlock_user_life r.1 msg.user))
unfolding take_turn
take_turn-first s h st msg rest e = rw (e, take_turn) refl

-- A turn on a queue that is not empty handles its first message, with the life of the user locked
-- until the end. When the verdict is good the rest of the queue stays; otherwise the user is marked
-- and disconnected, by force unless the message asked for it, and just the messages of the user
-- leave the queue, the others keeping their order. The queue gets shorter in any case.
pub take_turn_lem :
    (s : Server) (h : Handler) (st : s.State) (msg : UserMsg) (rest : List UserMsg)
    → h.msg_queue ≡ msg ∷ rest
    → let (verdict, st1) = dispatch_message_handler s (s.lock_user_life st msg.user) msg in
      let (h', st') = take_turn s h st in
      (h'.msg_queue ≡ left_over verdict msg.user rest)
      × (st' ≡ s.unlock_user_life (consequence s verdict st1 msg) msg.user)
      × (length h'.msg_queue < length h.msg_queue)
take_turn_lem s h st msg rest e =
    let (verdict, st1) = dispatch_message_handler s (s.lock_user_life st msg.user) msg in
    let (queue, state) = after_verdict-left s (record h { msg_queue = rest }) msg verdict st1 in
    let turn = take_turn-first s h st msg rest e in
    let left = ap (λ (r : Handler × s.State). r.0.msg_queue) turn ∙ queue in
    let later =
      ap (λ (r : Handler × s.State). r.1) turn
      ∙ ap (λ (t : s.State). s.unlock_user_life t msg.user) state in
    (
      left,
      later,
      omega (arith, ap length left, ap length e, length-left_over verdict msg.user rest),
    )

others-last :
    (msg : UserMsg) (queue : List UserMsg)
    → others msg.user (queue ++ msg ∷ []) ≡ others msg.user queue
others-last msg queue =
    let own : (msg.user == msg.user) ≡ true = ==_refl msg.user in
    filterb-append (λ m. not (m.user == msg.user)) queue (msg ∷ [])
    ∙ rw own (append-nil (others msg.user queue))

-- A message joins the end of the queue exactly when its user is not disconnecting, and nothing else
-- changes; removing its user then takes it away again, with just the other messages of the user.
pub add_msg-remove_user :
    (s : Server) (h : Handler) (st : s.State) (msg : UserMsg)
    → let (ret, h') = add_msg_to_msg_queue s h st (some msg) in
      (h'.msg_queue ≡ h.msg_queue ++ (if s.is_disconnecting st msg.user then [] else msg ∷ []))
      × ((ret ≡ 0) ↔ (s.is_disconnecting st msg.user ≡ false))
      × ((remove_user_from_msg_queue h' msg.user).msg_queue ≡ others msg.user h.msg_queue)
unfolding add_msg_to_msg_queue
add_msg-remove_user s h st msg = elim (Bool-cases (s.is_disconnecting st msg.user)) [
  | inl leaving ↦ rw leaving (
    sym (append-nil h.msg_queue),
    (λ z. absurd (omega (arith, z)), λ n. cc),
    remove_user-others h msg.user,
  )
  | inr here ↦ rw here (
    refl,
    (λ z. refl, λ n. refl),
    remove_user-others (record h { msg_queue = h.msg_queue ++ msg ∷ [] }) msg.user
        ∙ others-last msg h.msg_queue,
  )
]
