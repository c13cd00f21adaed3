-- ===== src/Rpc/Messages/Laws.antt =====
-- What the handlers of src/handler/tau_handler.cpp that send data hand to the session.
use tau_shell.Prelude.{◌≡◌, refl, [], ◌∷◌, ◌++◌, Bytes, length}
use tau_shell.Prelude.Int.{ℤ}
use tau_shell.Text.{show_ℤ, to_int8}
use tau_shell.Json.{string, primitive}
use tau_shell.Json.Flat.{AllStand}
use tau_shell.Hex.{IsLawful, AllBytes}
use tau_shell.Rpc.Session
use tau_shell.Rpc.Session.{Env, World}
use tau_shell.Rpc.Args.Laws.{IsInt32}
use tau_shell.Rpc.Args.Entries.{
  Request, Given, Ends, returned, tokens, key-Given, int_at-Given, pubkey_at-Given, text_at-Given,
  span_at-Given,
}
use tau_shell.Rpc.Messages.{add_new_message, send_data}

module _ (env : Env) (w : World) where
  abbrev pub message_added : (sender receiver payload : Bytes) → World
  message_added sender receiver payload =
      let time = env.answers.session_time w.calls in
      record w {
        calls =
            (w.calls ++ Session.get_session_time ∷ [])
            ++ Session.add_new_message time sender receiver payload ∷ [];
      }

  abbrev pub data_sent :
      (receiver payload : Bytes) → (alpha beta invoke_limit hit_limit : ℤ) → World
  data_sent receiver payload alpha beta invoke_limit hit_limit = record w {
    calls =
        w.calls
        ++ Session.send receiver payload (to_int8 alpha) (to_int8 beta) (to_int8 invoke_limit)
            (to_int8 hit_limit)
          ∷ [];
  }

module _ (env : Env) (lawful : IsLawful env.platform) (r : Request) (w : World)
    (receiver payload : Bytes) (stand : AllStand w.buffer r.entries)
    (t : Given r "receiver" string (env.platform.to_hex receiver))
    (p : Given r "payload" string payload) (t_bytes : AllBytes receiver)
    (t_size : length receiver ≡ 32) where
  -- Where the entries of the arguments stand in the text, with a "sender" and a "receiver" that
  -- are keys in hexadecimal, and a string "payload": the session is asked for the time and given
  -- the message with it. Nothing is stored, and the response stays as it is.
  pub add_new_message_lem :
      (sender : Bytes)
      → (s : Given r "sender" string (env.platform.to_hex sender)) → AllBytes sender
      → length sender ≡ 32
      → Ends
          (add_new_message env (tokens r))
          w
          (returned (message_added env w sender receiver payload))
  unfolding add_new_message
  add_new_message_lem sender s s_bytes s_size =
      let out = returned (message_added env w sender receiver payload) in
      key-Given r "sender" string s _ w out stand (λ _ _ h.
        key-Given r "receiver" string t _ _ out h (λ _ _ h.
          key-Given r "payload" string p _ _ out h (λ _ _ h.
            pubkey_at-Given r env lawful s _ _ out s_bytes s_size h (λ _ h.
              pubkey_at-Given r env lawful t _ _ out t_bytes t_size h
                (λ _ h. span_at-Given r p _ _ out h (λ buf h. (buf, refl)))))))

  -- Where the entries of the arguments stand in the text, with a "receiver" that is a key in
  -- hexadecimal, a string "payload" and numbers "alpha", "beta", "invoke_limit" and "hit_limit" of
  -- 32 bits: the session is given the payload to send, and each of the four numbers cut to eight
  -- bits.
  pub send_data_lem :
      (alpha beta invoke_limit hit_limit : ℤ)
      → (a : Given r "alpha" primitive (show_ℤ alpha))
      → (b : Given r "beta" primitive (show_ℤ beta))
      → (i : Given r "invoke_limit" primitive (show_ℤ invoke_limit))
      → (h : Given r "hit_limit" primitive (show_ℤ hit_limit)) → IsInt32 alpha
      → IsInt32 beta
      → IsInt32 invoke_limit
      → IsInt32 hit_limit
      → Ends
          (send_data env (tokens r))
          w
          (returned (data_sent env w receiver payload alpha beta invoke_limit hit_limit))
  unfolding send_data
  send_data_lem alpha beta invoke_limit hit_limit a b i l a_fits b_fits i_fits l_fits =
      let out = returned (data_sent env w receiver payload alpha beta invoke_limit hit_limit) in
      key-Given r "receiver" string t _ w out stand (λ _ _ h.
        key-Given r "payload" string p _ _ out h (λ _ _ h.
          key-Given r "alpha" primitive a _ _ out h (λ _ _ h.
            key-Given r "beta" primitive b _ _ out h (λ _ _ h.
              key-Given r "invoke_limit" primitive i _ _ out h (λ _ _ h.
                key-Given r "hit_limit" primitive l _ _ out h (λ _ _ h.
                  pubkey_at-Given r env lawful t _ _ out t_bytes t_size h (λ _ h.
                    text_at-Given r p _ _ out h (λ _ h. int_at-Given r a _ _ out a_fits h (λ _ h.
                      int_at-Given r b _ _ out b_fits h (λ _ h.
                        int_at-Given r i _ _ out i_fits h (λ _ h.
                          int_at-Given r l _ _ out l_fits h (λ buf h. (buf, refl)))))))))))))
