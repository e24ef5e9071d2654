-- ===== src/Handler/Tests.antt =====
-- A server that only keeps the users that disconnect, and instances of the theorems.
use neshare.Base.{
  ℕ, ◌<◌, ◌≡◌, refl, false, List, [], ◌∷◌, ◌++◌, some, nat_key, length, contains, ◌↔◌,
}
use neshare.Handler.{
  UserMsg, user_ok, user_failed, Handler, running, Server, stash, put_back,
  remove_user_from_msg_queue, dispatch_message_handler, disconnect, after_verdict, take_turn,
  add_msg_to_msg_queue,
}
use neshare.Handler.Turns.{left_over, others, add_msg-remove_user, consequence, take_turn_lem}

-- Entries fail, and all else is well.
abbrev marks : Server
marks = record {
  State = List ℕ;
  is_disconnecting = λ st u. contains u st;
  set_disconnecting = λ st u. u ∷ st;
  lock_user_life = λ st u. st;
  unlock_user_life = λ st u. st;
  handle_entry_set_start = λ st msg. (user_failed, st);
  handle_entry = λ st msg. (user_failed, st);
  handle_entry_set_end = λ st msg. (user_ok, st);
  handle_pong = λ st msg. (user_ok, st);
  handle_search_query = λ st msg. (user_ok, st);
  handle_push_request = λ st msg. (user_ok, st);
  handle_disconnect = λ st msg. st;
  handle_forced_disconnect = λ st msg. st;
}

abbrev message : ℕ → ℕ → UserMsg
message user type = record { user = user; common_msg = []; msg_type = type; error_msg = [] }

abbrev waiting : Handler
waiting = record {
  id = some 0;
  state = running;
  msg_queue = message 7 0x04 ∷ message 8 0x21 ∷ message 7 0x21 ∷ message 9 0x08 ∷ [];
}

-- User 7 disconnects, and its other message goes.
turn_of_7 :
    take_turn marks waiting []
    ≡ (record waiting { msg_queue = message 8 0x21 ∷ message 9 0x08 ∷ [] }, 7 ∷ [])
unfolding take_turn dispatch_message_handler after_verdict disconnect remove_user_from_msg_queue
    stash put_back
turn_of_7 = refl

take_turn_lem_example :
    let rest = message 8 0x21 ∷ message 7 0x21 ∷ message 9 0x08 ∷ [] in
    let (verdict, st1) = dispatch_message_handler marks [] (message 7 0x04) in
    let (h', st') = take_turn marks waiting [] in
    (h'.msg_queue ≡ left_over verdict 7 rest)
    × (st' ≡ consequence marks verdict st1 (message 7 0x04))
    × (length h'.msg_queue < 4)
take_turn_lem_example =
    take_turn_lem marks waiting [] (message 7 0x04)
      (message 8 0x21 ∷ message 7 0x21 ∷ message 9 0x08 ∷ []) refl

add_msg-remove_user_example :
    let (ret, h') = add_msg_to_msg_queue marks waiting [] (some (message 9 0x21)) in
    (h'.msg_queue ≡ waiting.msg_queue ++ message 9 0x21 ∷ [])
    × ((ret ≡ 0) ↔ (false ≡ false))
    × ((remove_user_from_msg_queue h' 9).msg_queue ≡ others 9 waiting.msg_queue)
add_msg-remove_user_example = add_msg-remove_user marks waiting [] (message 9 0x21)
