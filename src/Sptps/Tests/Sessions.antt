-- ===== src/Sptps/Tests/Sessions.antt =====
-- The theorems on the sessions of src/sptps.c at two toy sessions.
use tinc.Base.{◌≤◌, ◌≡◌, refl, true, false, [], ◌∷◌, arith, inl, inr}
use tinc.Base.Bytes.{Bytes}
use tinc.Sptps.Send.{send_sig, send_record_priv, send_record_stream, fill_msg, emit}
use tinc.Sptps.Handshake.{
  handshake_sig, receive_handshake, receive_sig, establish_keys, generate_key_material,
  init_ciphers, change_outcipher, receive_ack, notify, start, key_seed,
}
use tinc.Sptps.Receive.{receive_data}
use tinc.Sptps.Safety.Ready.{IsReady, Follows, Safe, is_ok}
use tinc.Sptps.Safety.Handshake.{receive_handshake-Safe}
use tinc.Sptps.Safety.Stream.{IsSound, returned, receive_data-Safe, returned-receive_data}
use tinc.Sptps.Safety.Start.{start-Safe}
use tinc.Sptps.Safety.Delivery.{delivered_count, receive_data-Silent}
use tinc.Sptps.Agreement.{Paired, keys_agree}
use tinc.Sptps.Tests.Toy.{toy, toy-StripsTag, host, label, kex_of, alice, bob}

alice-IsReady : IsReady alice
alice-IsReady = record {
  linked = refl;
  ciphers = refl;
  mine = refl;
  his = refl;
  secret = refl;
  key = refl;
  secured = refl;
}

alice-IsSound : IsSound alice
alice-IsSound = record {
  ready = alice-IsReady;
  buffered = inr (record { room = omega arith; short = omega arith; partial = inl (omega arith) });
}

-- The record that carries bob's signature.
abbrev bob_record : Bytes
bob_record = 0 ∷ 2 ∷ 128 ∷ 20 ∷ 135 ∷ []

receive_data-Safe_example : Safe IsSound (receive_data toy bob_record alice)
receive_data-Safe_example = receive_data-Safe alice bob_record toy-StripsTag alice-IsSound

returned-receive_data_example : returned (receive_data toy bob_record alice).0 ≤ 5
returned-receive_data_example = returned-receive_data alice bob_record

receive_data-Silent_example : delivered_count (receive_data toy bob_record alice).1.log ≡ 0
receive_data-Silent_example = receive_data-Silent alice bob_record refl

receive_handshake-Safe_example : Safe (Follows alice) (receive_handshake toy (20 ∷ 135 ∷ []) alice)
receive_handshake-Safe_example = receive_handshake-Safe alice (20 ∷ 135 ∷ []) alice-IsReady

start-Safe_example : Safe IsSound (start toy 16 true false 10 20 label (host 10))
start-Safe_example = start-Safe 16 true false 10 20 label (host 10)

paired : Paired alice bob (kex_of 10) (kex_of 20) 5 5
paired = record {
  first = refl;
  second = refl;
  new_a = refl;
  new_b = refl;
  labels = refl;
  kex_a = refl;
  kex_b = refl;
  got_a = refl;
  got_b = refl;
  secret_a = refl;
  secret_b = refl;
  exchange = refl;
}

alice_accepts : is_ok (handshake_sig toy (20 ∷ 135 ∷ []) alice).0 ≡ true
unfolding handshake_sig receive_sig establish_keys generate_key_material init_ciphers
    change_outcipher receive_ack notify fill_msg key_seed
alice_accepts = refl

bob_accepts : is_ok (handshake_sig toy (10 ∷ 135 ∷ []) bob).0 ≡ true
unfolding handshake_sig receive_sig establish_keys generate_key_material init_ciphers
    change_outcipher receive_ack notify fill_msg key_seed send_sig send_record_priv
    send_record_stream emit
bob_accepts = refl

keys_agree_example :
    ((handshake_sig toy (20 ∷ 135 ∷ []) alice).1.outcipher
      ≡ (handshake_sig toy (10 ∷ 135 ∷ []) bob).1.incipher)
    × ((handshake_sig toy (20 ∷ 135 ∷ []) alice).1.incipher
        ≡ (handshake_sig toy (10 ∷ 135 ∷ []) bob).1.outcipher)
keys_agree_example =
    keys_agree alice bob (kex_of 10) (kex_of 20) 5 5 (10 ∷ 135 ∷ []) (20 ∷ 135 ∷ []) paired
      alice_accepts bob_accepts
