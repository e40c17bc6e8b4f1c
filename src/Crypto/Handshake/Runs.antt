-- ===== src/Crypto/Handshake/Runs.antt =====
-- A run of the secure handshake, with a signature that is the data themselves.
use hyper_share.Prelude.{ℕ, ◌≡◌, refl, true, [], ◌++◌, some, replicate, arith}
use hyper_share.Wire.{Bytes, write_string, write_size, write_uint32}
use hyper_share.Maps.{bytes_beq, bytes_beq_iff}
use hyper_share.Crypto.Encryption.{success, failure, verification_failed}
use hyper_share.Crypto.Keys.{Sodium, KeyPair, sign, verify}
use hyper_share.Crypto.Handshake.Hello.{SecureHandshakeMessage}
use hyper_share.Crypto.Handshake.Hello as Hello
use hyper_share.Crypto.Handshake.Ack.{SecureHandshakeAckMessage}
use hyper_share.Crypto.Handshake.Ack as Ack
use hyper_share.Crypto.Handshake.Phases.{
  SecureHandshake, to_initiate, initiate_handshake, respond_to_handshake, complete_handshake,
  verify_handshake_signature, unsigned_hello, unsigned_ack, with_peer, create_signature_data,
  responder_context, initiate_label, ack_data, no_keys,
}
use hyper_share.Crypto.Handshake.Halts.{complete_handshake-respond_to_handshake}

abbrev plain : Sodium
plain = record {
  hmac = λ k m. k ++ m;
  exchange = λ p s. p ++ s;
  sign = λ m k. some m;
  verify = λ m s p. bytes_beq m s;
}

abbrev keys : ℕ → KeyPair
keys n = record { public_key = replicate 32 n; secret_key = [] }

abbrev party : ℕ → SecureHandshake
party n = record {
  phase = to_initiate;
  has_identity_keys = true;
  identity_keys = keys n;
  our_ephemeral_keys = no_keys;
  peer_ephemeral_public_key = replicate 32 0;
  peer_identity_public_key = replicate 32 0;
  our_nonce = 0;
  peer_nonce = 0;
  rotation_counter = 0;
  pending_ephemeral_keys = no_keys;
  pending_rotation_id = 0;
}

abbrev hello : SecureHandshakeMessage
hello =
    let new = unsigned_hello (keys 3) 7 1 8080 [] 0 (party 1) in
    record new {
      signature = create_signature_data initiate_label (Hello.serialize_for_signature new);
    }

abbrev ack : SecureHandshakeAckMessage
ack =
    let new = unsigned_ack (keys 4) 8 2 hello in
    record new {
      signature = ack_data (responder_context plain (with_peer (keys 4) 8 hello (party 2))) new;
    }

hello_sent : (initiate_handshake plain (keys 3) 7 1 8080 [] 0 (party 1)).1 ≡ success hello
unfolding initiate_handshake sign create_signature_data write_string write_size write_uint32
hello_sent = refl

hello_passes : bytes_beq hello.signature hello.signature ≡ true
hello_passes = (bytes_beq_iff hello.signature hello.signature).1 refl

ack_sent : (respond_to_handshake plain (keys 4) 8 2 hello (party 2)).1 ≡ success ack
unfolding respond_to_handshake verify_handshake_signature sign verify create_signature_data
    write_string write_size write_uint32 Hello.serialize_for_signature Ack.serialize_for_signature
ack_sent = rw hello_passes refl

plain_binds :
    (m m' key public_key signature : Bytes)
    → plain.sign m key ≡ some signature
    → plain.verify m' signature public_key ≡ true
    → m' ≡ m
plain_binds m m' key public_key signature h e = ground (arith, h, bytes_beq_iff m' signature, e)

complete_handshake-respond_to_handshake_example :
    (complete_handshake plain ack (initiate_handshake plain (keys 3) 7 1 8080 [] 0 (party 1)).0).1
    ≡ failure verification_failed
complete_handshake-respond_to_handshake_example =
    complete_handshake-respond_to_handshake plain (keys 3) (keys 4) 7 8 1 8080 2 [] 0 (party 1)
      (party 2) hello ack plain_binds refl refl refl refl refl (λ e. ground (arith, e)) hello_sent
      ack_sent
