-- ===== src/Crypto/Handshake/Halts.antt =====
-- How the handshake of src/crypto/secure_handshake.cpp ends between two parties that keep to it.
use hyper_share.Prelude.{
  ℕ, ◌≡◌, ◌≢◌, refl, ap, subst, sym, ◌∙◌, Bool, true, false, not, List, ◌++◌, some, inl, inr, ◌⊎◌,
  if◌then◌else◌, length, arith, Bool-cases, Option-cases, ◌==◌, take, drop, take-length-append,
  drop-length-append,
}
use hyper_share.Wire.{Bytes, write_string, write_bytes, write_size, write_uint32}
use hyper_share.Crypto.Encryption.{
  CryptoResult, success, failure, CryptoError, invalid_key, invalid_state, verification_failed,
  no_identity_keys, is_empty,
}
use hyper_share.Crypto.Keys.{Sodium, KeyPair, sign, verify}
use hyper_share.Crypto.Handshake.Hello.{SecureHandshakeMessage}
use hyper_share.Crypto.Handshake.Hello as Hello
use hyper_share.Crypto.Handshake.Ack.{SecureHandshakeAckMessage}
use hyper_share.Crypto.Handshake.Ack as Ack
use hyper_share.Crypto.Handshake.Phases.{
  SecureHandshake, to_respond, is_initiating, initiate_handshake, sent, respond_to_handshake,
  answered, complete_handshake, verify_ack_signature, verify_handshake_signature, ack_data,
  unsigned_hello, unsigned_ack, with_peer, create_signature_data, create_handshake_context,
  context_label, respond_label, initiate_label,
}

CryptoResult-cases :
    {A : Type 0} (r : CryptoResult A)
    → ((a : A) × (r ≡ success a)) ⊎ ((e : CryptoError) × (r ≡ failure e))
CryptoResult-cases (success a) = inl (a, refl)
CryptoResult-cases (failure e) = inr (e, refl)

append_cancel : {A : Type 0} (xs ys zs : List A) → xs ++ ys ≡ xs ++ zs → ys ≡ zs
append_cancel xs ys zs h =
    sym (drop-length-append xs ys) ∙ (ap (drop (length xs)) h ∙ drop-length-append xs zs)

-- Two equal lists with front parts of one length have equal front parts and equal rests.
append_split :
    {A : Type 0} (n : ℕ) (xs ys xs' ys' : List A)
    → length xs ≡ n
    → length xs' ≡ n
    → xs ++ ys ≡ xs' ++ ys'
    → (xs ≡ xs') × (ys ≡ ys')
append_split n xs ys xs' ys' h h' e =
    let same : length xs' ≡ length xs = h' ∙ sym h in
    let front : take (length xs) (xs' ++ ys') ≡ xs' = rw (sym same) (take-length-append xs' ys') in
    let back : drop (length xs) (xs' ++ ys') ≡ ys' = rw (sym same) (drop-length-append xs' ys') in
    (
      sym (take-length-append xs ys) ∙ (ap (take (length xs)) e ∙ front),
      sym (drop-length-append xs ys) ∙ (ap (drop (length xs)) e ∙ back),
    )

-- The context names the four keys in their order.
create_handshake_context_injective :
    (i r e f i' r' e' f' : Bytes)
    → length i ≡ 32
    → length i' ≡ 32
    → length r ≡ 32
    → length r' ≡ 32
    → length e ≡ 32
    → length e' ≡ 32
    → create_handshake_context i r e f ≡ create_handshake_context i' r' e' f'
    → (i ≡ i') × (r ≡ r') × (e ≡ e') × (f ≡ f')
unfolding create_handshake_context write_bytes
create_handshake_context_injective i r e f i' r' e' f' hi hi' hr hr' he he' h =
    let keys = append_cancel (write_string context_label) _ _ h in
    let (same_i, rest) = append_split 32 i _ i' _ hi hi' keys in
    let (same_r, rest') = append_split 32 r _ r' _ hr hr' rest in
    let (same_e, same_f) = append_split 32 e f e' f' he he' rest' in
    (same_i, same_r, same_e, same_f)

success_injective : {A : Type 0} {x y : A} → success x ≡ success y → x ≡ y
success_injective {x} {y} h = ground (arith, h)

module _ (c : Sodium) where
  sent_success :
      (s : SecureHandshake) (new msg : SecureHandshakeMessage) (r : CryptoResult Bytes)
      → (sent c s new r).1 ≡ success msg
      → ((sent c s new r).0 ≡ record s { phase = to_respond })
        × (signature : Bytes) × (record new { signature = signature } ≡ msg)
  sent_success s new msg (failure e) h = ground (arith, h)
  sent_success s new msg (success signature) h = (refl, signature, success_injective h)

  answered_success :
      (s : SecureHandshake) (new ack : SecureHandshakeAckMessage) (data_span key : Bytes)
      → (answered c s new (sign c data_span key)).1 ≡ success ack
      → (signature : Bytes) × (record new { signature = signature } ≡ ack)
        × (c.sign data_span key ≡ some signature)
  unfolding sign
  answered_success s new ack data_span key h = elim (Bool-cases (is_empty data_span)) [
    | inl nothing ↦ ground (arith, rw nothing at h)
    | inr something ↦ elim (Option-cases (c.sign data_span key)) [
      | inl fails ↦ ground (arith, rw (something, fails) at h)
      | inr (signature, given) ↦ (signature, success_injective (rw (something, given) at h), given)
    ]
  ]

  -- A call that succeeds has passed its two tests.
  tests_passed :
      {A : Type 0} (test test' : Bool) (bad bad' : CryptoError) (s : SecureHandshake)
      (r : SecureHandshake × CryptoResult A) (a : A)
      → (if test then (s, failure bad) else if test' then (s, failure bad') else r).1 ≡ success a
      → (if test then (s, failure bad) else if test' then (s, failure bad') else r) ≡ r
  tests_passed true test' bad bad' s r a h = ground (arith, h)
  tests_passed false true bad bad' s r a h = ground (arith, h)
  tests_passed false false bad bad' s r a h = refl

  test_passed :
      {A : Type 0} (test : Bool) (bad : CryptoError) (s : SecureHandshake)
      (r : SecureHandshake × CryptoResult A) (a : A)
      → (if test then (s, failure bad) else r).1 ≡ success a
      → r.1 ≡ success a
  test_passed true bad s r a h = ground (arith, h)
  test_passed false bad s r a h = h

  second_passed :
      {A : Type 0} (test test' : Bool) (bad bad' : CryptoError) (s : SecureHandshake)
      (r : SecureHandshake × CryptoResult A) (a : A)
      → (if test then (s, failure bad) else if not test' then (s, failure bad') else r).1
        ≡ success a
      → test' ≡ true
  second_passed true test' bad bad' s r a h = ground (arith, h)
  second_passed false false bad bad' s r a h = ground (arith, h)
  second_passed false true bad bad' s r a h = refl

  -- The keys and the nonce that an initiator has sent.
  initiate_handshake_sent :
      (e : KeyPair) (nonce peer_id port : ℕ) (name : Bytes) (capabilities : ℕ) (s : SecureHandshake)
      (msg : SecureHandshakeMessage)
      → (initiate_handshake c e nonce peer_id port name capabilities s).1 ≡ success msg
      → ((initiate_handshake c e nonce peer_id port name capabilities s).0
          ≡ record s { our_ephemeral_keys = e; our_nonce = nonce; phase = to_respond })
        × (msg.identity_public_key ≡ s.identity_keys.public_key)
        × (msg.ephemeral_public_key ≡ e.public_key)
        × (msg.nonce ≡ nonce)
        × (s.has_identity_keys ≡ true)
  unfolding initiate_handshake
  initiate_handshake_sent e nonce peer_id port name capabilities s msg h =
      let started = record s { our_ephemeral_keys = e; our_nonce = nonce } in
      let hello = unsigned_hello e nonce peer_id port name capabilities s in
      let signature =
        sign c (create_signature_data initiate_label (Hello.serialize_for_signature hello))
          s.identity_keys.secret_key in
      let passed =
        tests_passed (not (is_initiating s.phase)) (not s.has_identity_keys) invalid_state
          invalid_key s (sent c started hello signature) msg h in
      let (after, mark, made) =
        sent_success started hello msg signature (sym (ap (λ r. r.1) passed) ∙ h) in
      (
        ap (λ r. r.0) passed ∙ after,
        ap (λ m. m.identity_public_key) (sym made),
        ap (λ m. m.ephemeral_public_key) (sym made),
        ap (λ m. m.nonce) (sym made),
        second_passed (not (is_initiating s.phase)) s.has_identity_keys invalid_state invalid_key s
            (sent c started hello signature) msg h,
      )

  -- What a responder has signed.
  respond_to_handshake_signed :
      (e : KeyPair) (nonce own : ℕ) (msg : SecureHandshakeMessage) (s : SecureHandshake)
      (ack : SecureHandshakeAckMessage)
      → (respond_to_handshake c e nonce own msg s).1 ≡ success ack
      → (ack.ephemeral_public_key ≡ e.public_key)
        × (ack.response_nonce ≡ msg.nonce)
        × (c.sign
              (ack_data
                (create_handshake_context msg.identity_public_key s.identity_keys.public_key
                  msg.ephemeral_public_key e.public_key)
                ack)
              s.identity_keys.secret_key
            ≡ some ack.signature)
  unfolding respond_to_handshake Ack.serialize_for_signature sign
  respond_to_handshake_signed e nonce own msg s ack h =
      elim (CryptoResult-cases (verify_handshake_signature c msg)) [
        | inr (bad, fails) ↦ ground (arith, rw fails at h)
        | inl (u, passes) ↦
            let (signature, made, given) =
              answered_success (with_peer e nonce msg s) (unsigned_ack e nonce own msg) ack _ _
                (test_passed (not s.has_identity_keys) no_identity_keys _ _ ack (rw passes at h)) in
            (
              ap (λ a. a.ephemeral_public_key) (sym made),
              ap (λ a. a.response_nonce) (sym made),
              subst
                  (λ (a : SecureHandshakeAckMessage).
                    c.sign
                      (ack_data
                        (create_handshake_context msg.identity_public_key s.identity_keys.public_key
                          msg.ephemeral_public_key e.public_key)
                        a)
                      s.identity_keys.secret_key
                    ≡ some a.signature)
                  made given,
            )
      ]

  -- Between two parties that keep to it the handshake fails: the initiator refuses the answer that the
  -- responder has made for its message, whatever the initiator holds as the peer's identity, if
  -- the two have different ephemeral keys, keys have 32 bytes, and a signature passes only for the
  -- data that were signed.
  pub complete_handshake-respond_to_handshake :
      (ei er : KeyPair) (ni nr id port own : ℕ) (name : Bytes) (capabilities : ℕ)
      (i r : SecureHandshake) (msg : SecureHandshakeMessage) (ack : SecureHandshakeAckMessage)
      → ((m m' key public_key signature : Bytes)
          → c.sign m key ≡ some signature
          → c.verify m' signature public_key ≡ true
          → m' ≡ m)
      → length i.identity_keys.public_key ≡ 32
      → length i.peer_identity_public_key ≡ 32
      → length r.identity_keys.public_key ≡ 32
      → length ei.public_key ≡ 32
      → length er.public_key ≡ 32
      → ei.public_key ≢ er.public_key
      → (initiate_handshake c ei ni id port name capabilities i).1 ≡ success msg
      → (respond_to_handshake c er nr own msg r).1 ≡ success ack
      → (complete_handshake c ack (initiate_handshake c ei ni id port name capabilities i).0).1
        ≡ failure verification_failed
  unfolding complete_handshake verify_ack_signature verify create_signature_data write_string
      write_size write_uint32
  complete_handshake-respond_to_handshake ei er ni nr id port own name capabilities i r msg ack
        binds li lp lr lei ler differ hi hr =
      let (waiting, own_id, own_eph, own_nonce, has_keys) =
        initiate_handshake_sent ei ni id port name capabilities i msg hi in
      let (their_eph, echo, given) = respond_to_handshake_signed er nr own msg r ack hr in
      let signed_data =
        ack_data
          (create_handshake_context msg.identity_public_key r.identity_keys.public_key
            msg.ephemeral_public_key er.public_key)
          ack in
      let context =
        create_handshake_context i.peer_identity_public_key i.identity_keys.public_key
          ack.ephemeral_public_key ei.public_key in
      let tested_data = ack_data context ack in
      let refused : c.verify tested_data ack.signature i.peer_identity_public_key ≡ false =
        elim (Bool-cases (c.verify tested_data ack.signature i.peer_identity_public_key)) [
          | inr no_match ↦ no_match
          | inl passes ↦
              let same =
                binds signed_data tested_data r.identity_keys.secret_key i.peer_identity_public_key
                  ack.signature given passes in
              let contexts =
                append_cancel
                  (create_signature_data respond_label (Ack.serialize_for_signature ack)) _ _
                  same in
              let (a, b, ephemeral, d) =
                create_handshake_context_injective _ _ _ _ _ _ _ _ lp (ap length own_id ∙ li) li lr
                  (ap length their_eph ∙ ler) (ap length own_eph ∙ lei) contexts in
              absurd (differ (sym own_eph ∙ (sym ephemeral ∙ their_eph)))
        ] in
      let echoed : (ack.response_nonce == ni) ≡ true = ground (arith, echo, own_nonce) in
      rw (waiting, echoed, has_keys, refused) refl
