-- ===== src/Crypto/Handshake/Phases.antt =====
-- `SecureHandshake` of src/crypto/secure_handshake.cpp. The fresh ephemeral keys, the random numbers and
-- the time are arguments. A member that the source does not set is what it was, an argument of the
-- constructor.
use hyper_share.Prelude.{
  ℕ, ◌+◌, ◌-◌, ◌%◌, ◌^◌, Bool, true, false, ◌||◌, not, [], ◌∷◌, ◌++◌, ltb, leb, ◌==◌, if◌then◌else◌,
  replicate,
}
use hyper_share.Wire.{Bytes, write_string, write_bytes}
use hyper_share.Crypto.Encryption.{
  CryptoResult, success, failure, invalid_key, invalid_state, verification_failed, no_identity_keys,
}
use hyper_share.Crypto.Keys.{Sodium, KeyPair, SessionKeys, derive_session_keys, sign, verify}
use hyper_share.Crypto.Handshake.Hello.{SecureHandshakeMessage}
use hyper_share.Crypto.Handshake.Hello as Hello
use hyper_share.Crypto.Handshake.Ack.{SecureHandshakeAckMessage}
use hyper_share.Crypto.Handshake.Ack as Ack
use hyper_share.Crypto.Handshake.Rotation.{KeyRotationMessage}
use hyper_share.Crypto.Handshake.Rotation as Rotation

pub data HandshakePhase : Type 0 where
  to_initiate to_respond is_complete has_failed : HandshakePhase

pub record SecureHandshake : Type 0 where
  pub phase : HandshakePhase
  -- What the key manager holds.
  pub has_identity_keys : Bool
  pub identity_keys : KeyPair
  pub our_ephemeral_keys : KeyPair
  pub peer_ephemeral_public_key : Bytes
  pub peer_identity_public_key : Bytes
  pub our_nonce : ℕ
  pub peer_nonce : ℕ
  pub rotation_counter : ℕ
  pub pending_ephemeral_keys : KeyPair
  pub pending_rotation_id : ℕ

abbrev pub is_initiating : HandshakePhase → Bool
is_initiating phase = elim phase [ to_initiate ↦ true | _ ↦ false ]

abbrev pub is_responding : HandshakePhase → Bool
is_responding phase = elim phase [ to_respond ↦ true | _ ↦ false ]

abbrev pub is_done : HandshakePhase → Bool
is_done phase = elim phase [ is_complete ↦ true | _ ↦ false ]

-- "HANDSHAKE_INITIATE", "HANDSHAKE_RESPOND", "KEY_ROTATION" and "HYPERSHARE_HANDSHAKE_V1"
abbrev pub initiate_label : Bytes
initiate_label =
    b'H' ∷ b'A' ∷ b'N' ∷ b'D' ∷ b'S' ∷ b'H' ∷ b'A' ∷ b'K' ∷ b'E' ∷ b'_' ∷ b'I' ∷ b'N' ∷ b'I' ∷ b'T'
    ∷ b'I' ∷ b'A' ∷ b'T' ∷ b'E' ∷ []

abbrev pub respond_label : Bytes
respond_label =
    b'H' ∷ b'A' ∷ b'N' ∷ b'D' ∷ b'S' ∷ b'H' ∷ b'A' ∷ b'K' ∷ b'E' ∷ b'_' ∷ b'R' ∷ b'E' ∷ b'S' ∷ b'P'
    ∷ b'O' ∷ b'N' ∷ b'D' ∷ []

abbrev pub rotation_label : Bytes
rotation_label =
    b'K' ∷ b'E' ∷ b'Y' ∷ b'_' ∷ b'R' ∷ b'O' ∷ b'T' ∷ b'A' ∷ b'T' ∷ b'I' ∷ b'O' ∷ b'N' ∷ []

abbrev pub context_label : Bytes
context_label =
    b'H' ∷ b'Y' ∷ b'P' ∷ b'E' ∷ b'R' ∷ b'S' ∷ b'H' ∷ b'A' ∷ b'R' ∷ b'E' ∷ b'_' ∷ b'H' ∷ b'A' ∷ b'N'
    ∷ b'D' ∷ b'S' ∷ b'H' ∷ b'A' ∷ b'K' ∷ b'E' ∷ b'_' ∷ b'V' ∷ b'1' ∷ []

unfoldable pub create_signature_data : (context handshake_data : Bytes) → Bytes
create_signature_data context handshake_data = write_string context ++ handshake_data

unfoldable pub create_handshake_context :
    (initiator_identity responder_identity initiator_ephemeral responder_ephemeral : Bytes) → Bytes
create_handshake_context initiator_identity responder_identity initiator_ephemeral
      responder_ephemeral =
    write_string context_label
    ++ (write_bytes initiator_identity
        ++ (write_bytes responder_identity
            ++ (write_bytes initiator_ephemeral ++ write_bytes responder_ephemeral)))

-- The data of an answer that are signed: the fields, then the context.
abbrev pub ack_data : (context : Bytes) → SecureHandshakeAckMessage → Bytes
ack_data context msg =
    create_signature_data respond_label (Ack.serialize_for_signature msg) ++ context

-- The messages before they are signed.
abbrev pub unsigned_hello :
    (ephemeral : KeyPair) (nonce peer_id listen_port : ℕ) (peer_name : Bytes) (capabilities : ℕ)
    → SecureHandshake
    → SecureHandshakeMessage
unsigned_hello ephemeral nonce peer_id listen_port peer_name capabilities s = record {
  peer_id = peer_id;
  listen_port = listen_port;
  peer_name = peer_name;
  capabilities = capabilities;
  identity_public_key = s.identity_keys.public_key;
  ephemeral_public_key = ephemeral.public_key;
  nonce = nonce;
  signature = [];
}

abbrev pub unsigned_ack :
    (ephemeral : KeyPair) (nonce our_peer_id : ℕ)
    → SecureHandshakeMessage
    → SecureHandshakeAckMessage
unsigned_ack ephemeral nonce our_peer_id msg = record {
  peer_id = our_peer_id;
  ephemeral_public_key = ephemeral.public_key;
  nonce = nonce;
  response_nonce = msg.nonce;
  signature = [];
}

-- What a responder stores.
abbrev pub with_peer :
    (ephemeral : KeyPair) (nonce : ℕ) → SecureHandshakeMessage → SecureHandshake → SecureHandshake
with_peer ephemeral nonce msg s = record s {
  peer_identity_public_key = msg.identity_public_key;
  peer_ephemeral_public_key = msg.ephemeral_public_key;
  peer_nonce = msg.nonce;
  our_ephemeral_keys = ephemeral;
  our_nonce = nonce;
}

abbrev pub no_keys : KeyPair
no_keys = record { public_key = replicate 32 0; secret_key = replicate 32 0 }

unfoldable pub reset : SecureHandshake → SecureHandshake
reset s = record s {
  phase = to_initiate;
  our_ephemeral_keys = no_keys;
  peer_ephemeral_public_key = replicate 32 0;
  peer_identity_public_key = replicate 32 0;
  our_nonce = 0;
  peer_nonce = 0;
  rotation_counter = 0;
  pending_ephemeral_keys = no_keys;
  pending_rotation_id = 0;
}

module _ (c : Sodium) where
  abbrev pub sent :
      SecureHandshake
      → SecureHandshakeMessage
      → CryptoResult Bytes
      → SecureHandshake × CryptoResult SecureHandshakeMessage
  sent s msg (failure e) = (s, failure e)
  sent s msg (success signature) =
      (record s { phase = to_respond }, success (record msg { signature = signature }))

  unfoldable pub initiate_handshake :
      (ephemeral : KeyPair) (nonce peer_id listen_port : ℕ) (peer_name : Bytes) (capabilities : ℕ)
      → SecureHandshake
      → SecureHandshake × CryptoResult SecureHandshakeMessage
  initiate_handshake ephemeral nonce peer_id listen_port peer_name capabilities s =
      let started = record s { our_ephemeral_keys = ephemeral; our_nonce = nonce } in
      let msg = unsigned_hello ephemeral nonce peer_id listen_port peer_name capabilities s in
      if not (is_initiating s.phase)
      then (s, failure invalid_state)
      else if not s.has_identity_keys
      then (s, failure invalid_key)
      else sent started msg (
          sign c (create_signature_data initiate_label (Hello.serialize_for_signature msg))
            s.identity_keys.secret_key)

  unfoldable pub verify_handshake_signature : SecureHandshakeMessage → CryptoResult Unit
  verify_handshake_signature msg =
      verify c (create_signature_data initiate_label (Hello.serialize_for_signature msg))
        msg.signature msg.identity_public_key

  -- The context as the responder makes it, also with the keys of a rotation.
  abbrev pub responder_context : SecureHandshake → Bytes
  responder_context s =
      create_handshake_context s.peer_identity_public_key s.identity_keys.public_key
        s.peer_ephemeral_public_key s.our_ephemeral_keys.public_key

  abbrev pub answered :
      SecureHandshake
      → SecureHandshakeAckMessage
      → CryptoResult Bytes
      → SecureHandshake × CryptoResult SecureHandshakeAckMessage
  answered s ack (failure e) = (record s { phase = has_failed }, failure e)
  answered s ack (success signature) =
      (record s { phase = is_complete }, success (record ack { signature = signature }))

  abbrev pub respond :
      (ephemeral : KeyPair) (nonce our_peer_id : ℕ)
      → SecureHandshakeMessage
      → SecureHandshake
      → CryptoResult Unit
      → SecureHandshake × CryptoResult SecureHandshakeAckMessage
  respond ephemeral nonce our_peer_id msg s (failure e) =
      (record s { phase = has_failed }, failure e)
  respond ephemeral nonce our_peer_id msg s (success u) =
      let known = with_peer ephemeral nonce msg s in
      let ack = unsigned_ack ephemeral nonce our_peer_id msg in
      if not s.has_identity_keys
      then (known, failure no_identity_keys)
      else answered known ack
          (sign c (ack_data (responder_context known) ack) s.identity_keys.secret_key)

  unfoldable pub respond_to_handshake :
      (ephemeral : KeyPair) (nonce our_peer_id : ℕ)
      → SecureHandshakeMessage
      → SecureHandshake
      → SecureHandshake × CryptoResult SecureHandshakeAckMessage
  respond_to_handshake ephemeral nonce our_peer_id msg s =
      respond ephemeral nonce our_peer_id msg s (verify_handshake_signature msg)

  unfoldable pub verify_ack_signature :
      SecureHandshakeAckMessage → (peer_identity_key : Bytes) → SecureHandshake → CryptoResult Unit
  verify_ack_signature ack peer_identity_key s =
      if not s.has_identity_keys
      then failure no_identity_keys
      else verify c (ack_data (responder_context s) ack) ack.signature peer_identity_key

  abbrev pub finished :
      SecureHandshake → CryptoResult Unit → SecureHandshake × CryptoResult SessionKeys
  finished s (failure e) = (record s { phase = has_failed }, failure e)
  finished s (success u) = (
    record s { phase = is_complete },
    success (
        derive_session_keys c s.our_ephemeral_keys.secret_key s.peer_ephemeral_public_key (
          create_handshake_context s.identity_keys.public_key s.peer_identity_public_key
            s.our_ephemeral_keys.public_key s.peer_ephemeral_public_key)),
  )

  unfoldable pub complete_handshake :
      SecureHandshakeAckMessage → SecureHandshake → SecureHandshake × CryptoResult SessionKeys
  complete_handshake ack s =
      let known = record s {
        peer_ephemeral_public_key = ack.ephemeral_public_key;
        peer_nonce = ack.nonce;
      } in
      if not (is_responding s.phase)
      then (s, failure invalid_state)
      else if not (ack.response_nonce == s.our_nonce)
      then (record s { phase = has_failed }, failure verification_failed)
      else if not s.has_identity_keys
      then (known, failure no_identity_keys)
      else finished known (verify_ack_signature ack s.peer_identity_public_key known)

  unfoldable pub derive_server_session_keys : SecureHandshake → CryptoResult SessionKeys
  derive_server_session_keys s =
      if not (is_done s.phase)
      then failure invalid_state
      else if not s.has_identity_keys
      then failure no_identity_keys
      else success (
          derive_session_keys c s.our_ephemeral_keys.secret_key s.peer_ephemeral_public_key
            (responder_context s))

  abbrev pub rotated :
      SecureHandshake
      → KeyRotationMessage
      → CryptoResult Bytes
      → SecureHandshake × CryptoResult (KeyRotationMessage × SessionKeys)
  rotated s msg (failure e) = (s, failure e)
  rotated s msg (success signature) = (
    s,
    success (
      record msg { signature = signature },
      derive_session_keys c s.pending_ephemeral_keys.secret_key s.peer_ephemeral_public_key (
          create_handshake_context s.identity_keys.public_key s.peer_identity_public_key
            s.pending_ephemeral_keys.public_key s.peer_ephemeral_public_key),
    ),
  )

  -- With the message, which the source makes and drops.
  unfoldable pub initiate_key_rotation :
      (ephemeral : KeyPair) (nonce now : ℕ)
      → SecureHandshake
      → SecureHandshake × CryptoResult (KeyRotationMessage × SessionKeys)
  initiate_key_rotation ephemeral nonce now s =
      let number = (s.rotation_counter + 1) % 2 ^ 64 in
      let pending = record s {
        pending_ephemeral_keys = ephemeral;
        rotation_counter = number;
        pending_rotation_id = number;
      } in
      let msg : KeyRotationMessage = record {
        rotation_id = number;
        new_ephemeral_public_key = ephemeral.public_key;
        nonce = nonce;
        timestamp = now;
        signature = [];
      } in
      if not (is_done s.phase)
      then (s, failure invalid_state)
      else if not s.has_identity_keys
      then (pending, failure no_identity_keys)
      else rotated pending msg (
          sign c (create_signature_data rotation_label (Rotation.serialize_for_signature msg))
            s.identity_keys.secret_key)

  -- `now - then` or `then - now`, and five minutes.
  abbrev pub is_skewed : (now timestamp : ℕ) → Bool
  is_skewed now timestamp =
      ltb 300000000000 (if ltb timestamp now then now - timestamp else timestamp - now)

  abbrev pub rotate :
      (ephemeral : KeyPair) (now : ℕ)
      → KeyRotationMessage
      → SecureHandshake
      → CryptoResult Unit
      → SecureHandshake × CryptoResult SessionKeys
  rotate ephemeral now msg s (failure e) = (s, failure e)
  rotate ephemeral now msg s (success u) =
      let fresh = record s {
        peer_ephemeral_public_key = msg.new_ephemeral_public_key;
        our_ephemeral_keys = ephemeral;
      } in
      if is_skewed now msg.timestamp
      then (s, failure verification_failed)
      else if not s.has_identity_keys
      then (fresh, failure no_identity_keys)
      else (
        fresh,
        success (
            derive_session_keys c ephemeral.secret_key msg.new_ephemeral_public_key
              (responder_context fresh)),
      )

  unfoldable pub respond_to_key_rotation :
      (ephemeral : KeyPair) (now : ℕ)
      → KeyRotationMessage
      → SecureHandshake
      → SecureHandshake × CryptoResult SessionKeys
  respond_to_key_rotation ephemeral now msg s =
      if not (is_done s.phase)
      then (s, failure invalid_state)
      else rotate ephemeral now msg s (
          verify c (create_signature_data rotation_label (Rotation.serialize_for_signature msg))
            msg.signature s.peer_identity_public_key)

-- Two hours, a gigabyte, one hour.
unfoldable pub should_rotate_keys : (now last_rotation bytes_transferred : ℕ) → Bool
should_rotate_keys now last_rotation bytes_transferred =
    leb 7200000000000 (now - last_rotation)
    || (leb 1073741824 bytes_transferred || leb 3600000000000 (now - last_rotation))
