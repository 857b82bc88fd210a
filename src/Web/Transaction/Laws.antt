-- ===== src/Web/Transaction/Laws.antt =====
-- A sealed sign-in attempt opens to what was sealed, for ten minutes.
use text.Mathlib.TextLemmas.{nil-append, cons-append}
use flash_trips.Prelude.{
  ℕ, ◌+◌, ◌-◌, ◌<◌, ◌≤◌, String, Bytes, true, false, Option, none, some, List, [], ◌∷◌, ◌++◌,
  length, length-append, take-append, drop-append, take, drop, leb, nat_eq, ◌+++◌, split_on,
  if◌then◌else◌, ◌≡◌, ◌≢◌, refl, codes, All, arith, Option-cases, inl, inr,
}
use flash_trips.Json.{Json, string_member, number_member}
use flash_trips.Web.Platform.{Platform, IsAead, CarriesJson}
use flash_trips.Web.Transaction.{
  OidcTransaction, lifetime, stored_transaction, read_transaction, read_payload, seal_payload, seal,
  parse_plaintext, decrypt_parts, open_parts, open_cookie,
}

-- No character of the text is the separator.
abbrev pub Lacks : ℕ → String → Type 0
Lacks d s = All (λ c. c ≢ d) (codes s)

split_on-Lacks : (d : ℕ) (s : String) → Lacks d s → split_on d s ≡ s ∷ []
unfolding split_on
split_on-Lacks d String.[] h = refl
split_on-Lacks d (String.◌∷◌ c s) h = ground (arith, split_on-Lacks d s h.1)

split_on-join :
    (s t : String) → Lacks b'.' s → Lacks b'.' t → split_on b'.' (s +++ ("." +++ t)) ≡ s ∷ t ∷ []
unfolding split_on
split_on-join String.[] t h k = rw (nil-append, cons-append, nil-append, split_on-Lacks b'.' t k)
split_on-join (String.◌∷◌ c s) t h k = rw cons-append (ground (arith, split_on-join s t h.1 k))

module _ (p : Platform) (key : Bytes) where
  decrypt-append :
      (iv ciphertext tag : Bytes)
      → length iv ≡ 12
      → length tag ≡ 16
      → 0 < length ciphertext
      → decrypt_parts p key iv (ciphertext ++ tag)
        ≡ parse_plaintext p key (p.decrypt key iv [] tag ciphertext)
  unfolding decrypt_parts
  decrypt-append iv ciphertext tag i t h =
      let total : length (ciphertext ++ tag) ≡ length ciphertext + 16 =
        omega (arith, length-append ciphertext tag) in
      let body : length (ciphertext ++ tag) - 16 ≡ length ciphertext = omega arith in
      let long : leb (length (ciphertext ++ tag)) 16 ≡ false = ground arith in
      let iv_fits : nat_eq (length iv) 12 ≡ true = ground arith in
      rw (iv_fits, long, body, take-append ciphertext tag, drop-append ciphertext tag)

  module _ (iv : Bytes) (now : ℕ) (t : OidcTransaction) (aead : IsAead p)
      (json : CarriesJson p (stored_transaction t (now + lifetime))) (iv_length : length iv ≡ 12)
      (iv_text : p.from_base64url (p.to_base64url iv) ≡ iv)
      (iv_dots : Lacks b'.' (p.to_base64url iv)) where
    abbrev sealed : Bytes
    sealed = seal_payload p key iv (stored_transaction t (now + lifetime))

    decrypt-seal : decrypt_parts p key iv sealed ≡ some (stored_transaction t (now + lifetime))
    unfolding seal_payload
    decrypt-seal =
        let plaintext = p.stringify (stored_transaction t (now + lifetime)) in
        let opened =
          decrypt-append iv (p.encrypt key iv [] plaintext).0 (p.encrypt key iv [] plaintext).1
            iv_length (aead.tag_length key iv [] plaintext)
            (omega (arith, aead.ciphertext_length key iv [] plaintext, json.nonempty)) in
        rw (opened, aead.decrypt-encrypt key iv [] plaintext, json.parse-stringify)

    -- A cookie that was sealed opens to the same code verifier, nonce and state until ten minutes
    -- have passed, that instant included, and to nothing afterwards.
    pub open-seal :
        (later : ℕ)
        → p.from_base64url (p.to_base64url sealed) ≡ sealed
        → Lacks b'.' (p.to_base64url sealed)
        → open_cookie p key (some (seal p key iv now t)) later
          ≡ (if leb later (now + lifetime) then some t else none)
    unfolding open_cookie open_parts seal read_payload read_transaction stored_transaction
        string_member number_member
    open-seal later text dots =
        rw
          (
            split_on-join (p.to_base64url iv) (p.to_base64url sealed) iv_dots dots,
            iv_text,
            text,
            decrypt-seal,
          )
          (ground arith)

  -- What an opened cookie has shown.
  pub record Opened (value : Option String) (later : ℕ) (t : OidcTransaction) : Type 0 where
    pub iv : String
    pub ciphertext : String
    pub text : String
    pub payload : Json
    pub expires_at : ℕ
    pub given : value ≡ some text
    pub parts : split_on b'.' text ≡ iv ∷ ciphertext ∷ []
    pub plaintext : Bytes
    pub iv_length : length (p.from_base64url iv) ≡ 12
    pub has_tag : 16 < length (p.from_base64url ciphertext)
    pub decrypted :
        p.decrypt key
          (p.from_base64url iv)
          []
          (drop (length (p.from_base64url ciphertext) - 16) (p.from_base64url ciphertext))
          (take (length (p.from_base64url ciphertext) - 16) (p.from_base64url ciphertext))
        ≡ some plaintext
    pub parsed : p.parse plaintext ≡ some payload
    pub code_verifier : string_member "codeVerifier" payload ≡ some t.code_verifier
    pub nonce : string_member "nonce" payload ≡ some t.nonce
    pub state : string_member "state" payload ≡ some t.state
    pub expiry : number_member "expiresAt" payload ≡ some expires_at
    pub in_time : later ≤ expires_at

  decrypt_parts_sound :
      (iv encrypted : Bytes) (payload : Json)
      → decrypt_parts p key iv encrypted ≡ some payload
      → (plain : Bytes) × (length iv ≡ 12)
        × (16 < length encrypted)
        × (p.decrypt key iv []
              (drop (length encrypted - 16) encrypted)
              (take (length encrypted - 16) encrypted)
            ≡ some plain)
        × (p.parse plain ≡ some payload)
  unfolding decrypt_parts
  decrypt_parts_sound iv encrypted payload h =
      go
        (p.decrypt key iv [] (drop (length encrypted - 16) encrypted)
          (take (length encrypted - 16) encrypted))
        refl
    where
      go :
          (o : Option Bytes)
          → p.decrypt key iv []
              (drop (length encrypted - 16) encrypted)
              (take (length encrypted - 16) encrypted)
            ≡ o
          → (plain : Bytes) × (length iv ≡ 12)
            × (16 < length encrypted)
            × (p.decrypt key iv []
                  (drop (length encrypted - 16) encrypted)
                  (take (length encrypted - 16) encrypted)
                ≡ some plain)
            × (p.parse plain ≡ some payload)
      go none e = absurd (ground (arith, e, h))
      go (some plain) e =
          (plain, ground (arith, e, h), ground (arith, e, h), e, ground (arith, e, h))

  read_payload_sound :
      (value : Option String) (iv ciphertext text : String) (later : ℕ) (o : Option Json)
      (t : OidcTransaction)
      → value ≡ some text
      → split_on b'.' text ≡ iv ∷ ciphertext ∷ []
      → decrypt_parts p key (p.from_base64url iv) (p.from_base64url ciphertext) ≡ o
      → read_payload later o ≡ some t
      → Opened value later t
  unfolding read_payload read_transaction
  read_payload_sound value iv ciphertext text later none t g s d e = cc
  read_payload_sound value iv ciphertext text later (some v) t g s d e =
      elim (Option-cases (number_member "expiresAt" v)) [
        | inl missing ↦ absurd (ground arith)
        | inr (expires_at, found) ↦
            let (plain, twelve, tagged, decrypted, parsed) =
              decrypt_parts_sound (p.from_base64url iv) (p.from_base64url ciphertext) v d in
            record {
              iv = iv;
              ciphertext = ciphertext;
              text = text;
              payload = v;
              expires_at = expires_at;
              given = g;
              parts = s;
              plaintext = plain;
              iv_length = twelve;
              has_tag = tagged;
              decrypted = decrypted;
              parsed = parsed;
              code_verifier = ground arith;
              nonce = ground arith;
              state = ground arith;
              expiry = found;
              in_time = ground arith;
            }
      ]

  open_parts_sound :
      (text : String) (parts : List String) (later : ℕ) (t : OidcTransaction)
      → split_on b'.' text ≡ parts
      → open_parts p key parts later ≡ some t
      → Opened (some text) later t
  unfolding open_parts
  open_parts_sound text (iv ∷ ciphertext ∷ []) later t s e =
      read_payload_sound (some text) iv ciphertext text later
        (decrypt_parts p key (p.from_base64url iv) (p.from_base64url ciphertext)) t refl s refl e
  open_parts_sound text [] later t s e = cc
  open_parts_sound text (_ ∷ []) later t s e = cc
  open_parts_sound text (_ ∷ _ ∷ _ ∷ _) later t s e = cc

  -- A cookie opens only if it is an IV of twelve bytes and a ciphertext with a tag of sixteen at its
  -- end that the platform decrypts under the key, with no additional data, to bytes that parse to a
  -- document with the transaction's three texts and an expiry that has not passed.
  pub open_cookie-Opened :
      (value : Option String) (later : ℕ) (t : OidcTransaction)
      → open_cookie p key value later ≡ some t
      → Opened value later t
  unfolding open_cookie
  open_cookie-Opened none later t e = cc
  open_cookie-Opened (some text) later t e =
      open_parts_sound text (split_on b'.' text) later t refl e
