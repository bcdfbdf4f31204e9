-- ===== src/Audit/Checkpoint/Anchor.antt =====
-- What a checkpoint proves: signatures that verify, and chains that match a signed head.
use recon_sync.Common.{
  ℕ, suc, ap, subst, ◌+◌, ◌-◌, ◌≤◌, ◌<◌, true, ◌≡◌, refl, ◌∙◌, sym, ◌↔◌, inl, inr, Option, none,
  some, List, [], ◌∷◌, Text, length, take, text_beq_iff, arith, ◌==◌, zero, length-take, Bool-cases,
  Option-cases, ltb, if◌then◌else◌,
}
use recon_sync.Domain.Errors.{ok}
use recon_sync.Audit.Chain.{Record, HashedContent, verify_chain}
use recon_sync.Audit.Tamper.{
  final_hash, contents, Linked, NoCollision, verify_chain_iff, chain_unique,
}
use recon_sync.Audit.Checkpoint.{
  Checkpoint, Crypto, seed_size, private_key_size, public_key_size, signed_content, decode_key,
  new_signer, signer_public_key, checkpoint_message, sign_checkpoint, verify_with,
  verify_checkpoint, reach, verify_against_checkpoint,
}

-- What base64 and Ed25519 document: base64 decodes what it encoded, a private key that is made from a
-- seed signs what its public part verifies, and keys have their sizes.
pub record Sound (crypto : Crypto) : Type 0 where
  pub decodes : (t : Text) → crypto.unbase64 (crypto.base64 t) ≡ some t
  pub accepts :
      (s m : Text)
      → length s ≡ seed_size
      → let k = crypto.from_seed s in
        crypto.verify (crypto.public_part k) m (crypto.sign k m) ≡ true
  pub seeded : (s : Text) → length s ≡ seed_size → length (crypto.from_seed s) ≡ private_key_size
  pub sized :
      (k : Text) → length k ≡ private_key_size → length (crypto.public_part k) ≡ public_key_size

-- The private key is made from a seed, so that its public half belongs to it.
abbrev pub FromSeed : Crypto → Text → Type 0
FromSeed crypto priv = (s : Text) × (length s ≡ seed_size) × (priv ≡ crypto.from_seed s)

module _ (crypto : Crypto) (sound : Sound crypto) where
  FromSeed-length : (priv : Text) → FromSeed crypto priv → length priv ≡ private_key_size
  FromSeed-length priv (s, n, e) = ap length e ∙ sound.seeded s n

  FromSeed-verify :
      (priv m : Text)
      → FromSeed crypto priv
      → crypto.verify (crypto.public_part priv) m (crypto.sign priv m) ≡ true
  FromSeed-verify priv m (s, n, e) =
      subst (λ (k : Text). crypto.verify (crypto.public_part k) m (crypto.sign k m) ≡ true) (sym e)
        (sound.accepts s m n)

  new_signer-FromSeed :
      (encoded : Text) {raw priv : Text}
      → decode_key crypto encoded ≡ ok raw
      → (length raw ≡ private_key_size → FromSeed crypto raw)
      → new_signer crypto encoded ≡ ok priv
      → FromSeed crypto priv
  unfolding new_signer
  new_signer-FromSeed encoded {raw} {priv} e whole h =
      elim (Bool-cases (length raw == private_key_size)) [
        | inl f ↦
            let same : raw ≡ priv = ground (arith, e, h, f) in
            subst (FromSeed crypto) same (whole (ground (arith, f)))
        | inr f ↦ elim (Bool-cases (length raw == seed_size)) [
          | inl g ↦ (raw, ground (arith, g), ground (arith, e, h, f, g))
          | inr g ↦ absurd (ground (arith, e, h, f, g))
        ]
      ]

  pub sign_checkpoint_sound :
      (priv : Text) (c s : Checkpoint)
      → FromSeed crypto priv
      → sign_checkpoint crypto priv c ≡ ok s
      → (s.tenant_id ≡ c.tenant_id)
        × (s.seq ≡ c.seq)
        × (s.hash ≡ c.hash)
        × (verify_checkpoint crypto s (signer_public_key crypto priv) ≡ none)
  unfolding sign_checkpoint verify_checkpoint signer_public_key checkpoint_message verify_with
  sign_checkpoint_sound priv c s k h = elim (Option-cases (crypto.encode (signed_content c))) [
    | inl e ↦ absurd (ground arith)
    | inr (msg, e) ↦ ground (
      arith,
      sound.decodes (crypto.public_part priv),
      sound.sized priv,
      FromSeed-length priv k,
      sound.decodes (crypto.sign priv msg),
      FromSeed-verify priv msg k,
    )
  ]

  -- A checkpoint that a configured signer signs carries the signer's public key, keeps what it
  -- says, and verifies against that key, if base64 and Ed25519 do what they document and the
  -- content can be encoded. The configured key is a seed, or 64 bytes that are made from a seed: the
  -- signer does not check that the two halves of 64 bytes belong together.
  pub sign_checkpoint-verify_checkpoint :
      (encoded : Text) (c : Checkpoint) {raw priv msg : Text}
      → decode_key crypto encoded ≡ ok raw
      → (length raw ≡ private_key_size → FromSeed crypto raw)
      → new_signer crypto encoded ≡ ok priv
      → crypto.encode (signed_content c) ≡ some msg
      → (s : Checkpoint) × (sign_checkpoint crypto priv c ≡ ok s)
        × (s.public_key ≡ signer_public_key crypto priv)
        × (signed_content s ≡ signed_content c)
        × (verify_checkpoint crypto s (signer_public_key crypto priv) ≡ none)
  unfolding sign_checkpoint checkpoint_message
  sign_checkpoint-verify_checkpoint encoded c {raw} {priv} {msg} d whole h e =
      let s : Checkpoint = record c {
        signature = crypto.base64 (crypto.sign priv msg);
        public_key = signer_public_key crypto priv;
      } in
      let signed : sign_checkpoint crypto priv c ≡ ok s =
        rw (e, checkpoint_message, sign_checkpoint) in
      let k = new_signer-FromSeed encoded d whole h in
      (s, signed, refl, refl, (sign_checkpoint_sound priv c s k signed).3)

-- The chain reaches position `n`, where its hash is `hash`.
abbrev pub Reaches : ℕ → Text → List Record → Type 0
Reaches n hash rs = (0 < n) × (n ≤ length rs) × (final_hash [] (take n rs) ≡ hash)

module _ (digest : HashedContent → Option Text) where
  suc_pred : (n : ℕ) → 0 < n → suc (n - 1) ≡ n
  suc_pred n h = omega arith

  reach_step :
      (seq i : ℕ) (p h : Text) (r : Record) (rs : List Record)
      → Linked digest i p (r ∷ rs)
      → reach digest seq p h (r ∷ rs) ≡ (
          if ltb seq i then some h else reach digest seq r.hash (if i == seq then r.hash else h) rs)
  unfolding reach
  reach_step seq i p h r rs l = rw (l.2, l.0, reach)

  reach_beyond :
      (seq : ℕ) (p h : Text) (rs : List Record) (i : ℕ)
      → Linked digest i p rs
      → seq < i
      → reach digest seq p h rs ≡ some h
  unfolding reach
  reach_beyond seq p h [] i l lt = refl
  reach_beyond seq p h (r ∷ rs) i l lt = ground (arith, l.0)

  reach_short :
      (rs : List Record) (seq i : ℕ) (p h : Text)
      → Linked digest i p rs
      → i + length rs ≤ seq
      → reach digest seq p h rs ≡ some h
  reach_short [] seq i p h l le = unfold reach in refl
  reach_short (r ∷ rs) seq i p h l le =
      ground (arith, reach_step seq i p h r rs l, reach_short rs seq (suc i) r.hash h l.3)

  reach_within :
      (rs : List Record) (seq i : ℕ) (p h : Text)
      → Linked digest i p rs
      → i ≤ seq
      → seq < i + length rs
      → reach digest seq p h rs ≡ some (final_hash p (take (suc (seq - i)) rs))
  reach_within [] seq i p h l le lt = absurd (omega arith)
  reach_within (r ∷ rs) seq i p h l le lt = elim (Bool-cases (i == seq)) [
    | inl here ↦
        let e : seq - i ≡ 0 = ground arith in
        rw e (
          ground
            (arith, reach_step seq i p h r rs l, reach_beyond seq r.hash r.hash rs (suc i) l.3))
    | inr later ↦
        let e : seq - i ≡ suc (seq - suc i) = ground arith in
        rw e (ground (arith, reach_step seq i p h r rs l, reach_within rs seq (suc i) r.hash h l.3))
  ]

  -- A checkpoint with a hash matches a verified chain exactly if the checkpoint itself verifies and
  -- the chain reaches its position with its hash: a chain that was cut before it, or whose records
  -- up to it were written anew with other hashes, does not match.
  pub verify_against_checkpoint_iff :
      (crypto : Crypto) (tenant : Text) (rs : List Record) (c : Checkpoint) (public_key : Text)
      → (verify_chain digest tenant rs).verified ≡ true
      → 0 < length c.hash
      → ((verify_against_checkpoint digest crypto rs c public_key).matches ≡ true)
        ↔ ((verify_checkpoint crypto c public_key ≡ none) × Reaches c.seq c.hash rs)
  unfolding verify_against_checkpoint
  verify_against_checkpoint_iff crypto tenant rs c public_key v h =
      let l = (verify_chain_iff digest tenant rs).0 v in
      elim (Option-cases (verify_checkpoint crypto c public_key)) [
        | inr (e, bad) ↦ ground arith
        | inl good ↦ ground (
          arith,
          reach_beyond c.seq [] [] rs 1 l,
          reach_short rs c.seq 1 [] [] l,
          reach_within rs c.seq 1 [] [] l,
          suc_pred c.seq,
          text_beq_iff (final_hash [] (take c.seq rs)) c.hash,
        )
      ]

  pub Linked-take :
      (n i : ℕ) (p : Text) (rs : List Record) → Linked digest i p rs → Linked digest i p (take n rs)
  Linked-take zero i p rs l = tt
  Linked-take (suc n) i p [] l = tt
  Linked-take (suc n) i p (r ∷ rs) l = (l.0, l.1, l.2, Linked-take n (suc i) r.hash rs l.3)

  -- Two verified chains that both match a checkpoint with a hash cover the same contents up to its
  -- position, if at no position up to it two different contents of theirs have the same hash.
  pub verify_against_checkpoint_unique :
      (crypto : Crypto) (tenant : Text) (rs ss : List Record) (c : Checkpoint) (public_key : Text)
      → (verify_chain digest tenant rs).verified ≡ true
      → (verify_chain digest tenant ss).verified ≡ true
      → 0 < length c.hash
      → (verify_against_checkpoint digest crypto rs c public_key).matches ≡ true
      → (verify_against_checkpoint digest crypto ss c public_key).matches ≡ true
      → NoCollision digest [] (take c.seq rs) [] (take c.seq ss)
      → contents [] (take c.seq rs) ≡ contents [] (take c.seq ss)
  verify_against_checkpoint_unique crypto tenant rs ss c public_key v w h m k n =
      let a = (verify_against_checkpoint_iff crypto tenant rs c public_key v h).0 m in
      let b = (verify_against_checkpoint_iff crypto tenant ss c public_key w h).0 k in
      (chain_unique digest 1 [] [] (take c.seq rs) (take c.seq ss)
        (Linked-take c.seq 1 [] rs ((verify_chain_iff digest tenant rs).0 v))
        (Linked-take c.seq 1 [] ss ((verify_chain_iff digest tenant ss).0 w))
        (omega (arith, a.1.1, b.1.1, length-take c.seq rs, length-take c.seq ss))
        (a.1.2 ∙ sym b.1.2) n).1
