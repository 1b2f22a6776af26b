-- ===== src/Intents/Messages/Binding.antt =====
-- The bytes of a message determine what is signed: src/intents.ts.
use fermi_v1_sdk.Base.{
  ◌≡◌, refl, ap, sym, ◌∙◌, arith, ◌++◌, ok, Number, whole, pos, length, length-append,
  append_cancel, from_bind, ok_injective,
}
use fermi_v1_sdk.Wire.{Bytes, to_big_int, u8, u16_to_le, u64_to_le}
use fermi_v1_sdk.Wire.Injective.{
  length-u8, length-u16, length-u64, u8_injective, u16_injective, u64_injective,
}
use fermi_v1_sdk.Platform.{Platform}
use fermi_v1_sdk.Intents.{perp_market_target}
use fermi_v1_sdk.Intents.Messages.{
  Party, IntentV3, scope_bytes, message_v3_bytes, user_intent_domain,
}

module _ (W : Platform) where
  open W use {PublicKey, to_bytes, length-to_bytes, to_bytes_injective, sha256, length-sha256}

  same_length : (a b : PublicKey) → length (to_bytes a) ≡ length (to_bytes b)
  same_length a b = length-to_bytes a ∙ sym (length-to_bytes b)

  -- The parts of a scope.
  record Scoped (party : Party PublicKey) (kind market : Number) (bs : Bytes) : Type 0 where
    k : Bytes
    t : Bytes
    m : Bytes
    k_eq : u8 kind ≡ ok k
    t_eq : u8 (whole (pos perp_market_target)) ≡ ok t
    m_eq : u16_to_le market ≡ ok m
    bytes_eq :
        bs
        ≡ to_bytes party.group
          ++ (to_bytes party.fermi_account ++ (to_bytes party.user_owner ++ (k ++ (t ++ m))))

  scope_bytes-Scoped :
      (party : Party PublicKey) (kind market : Number) {bs : Bytes}
      → scope_bytes W party kind market ≡ ok bs
      → Scoped party kind market bs
  unfolding scope_bytes
  scope_bytes-Scoped party kind market h = from_bind (u8 kind) _ h λ k ek ck.
      from_bind (u8 (whole (pos perp_market_target))) _ ck λ t et ct.
        from_bind (u16_to_le market) _ ct λ m em cm. record {
          k = k;
          t = t;
          m = m;
          k_eq = ek;
          t_eq = et;
          m_eq = em;
          bytes_eq = sym (ok_injective cm);
        }

  length-scope :
      (party : Party PublicKey) (kind market : Number) {bs : Bytes}
      → scope_bytes W party kind market ≡ ok bs
      → length bs ≡ 100
  length-scope party kind market {bs} h =
      let s = scope_bytes-Scoped party kind market h in
      rw s.bytes_eq (
        omega (
          arith,
          length-append {0},
          length-to_bytes party.group,
          length-to_bytes party.fermi_account,
          length-to_bytes party.user_owner,
          length-u8 kind s.k_eq,
          length-u8 (whole (pos perp_market_target)) s.t_eq,
          length-u16 market s.m_eq,
        ))

  scope_injective :
      (p q : Party PublicKey) (k l m n : Number) {bs : Bytes}
      → scope_bytes W p k m ≡ ok bs
      → scope_bytes W q l n ≡ ok bs
      → (p ≡ q) × (k ≡ l) × (m ≡ n)
  scope_injective p q k l m n hp hq =
      let s = scope_bytes-Scoped p k m hp in
      let r = scope_bytes-Scoped q l n hq in
      let (eg, e1) =
        append_cancel _ _ (same_length p.group q.group) (sym s.bytes_eq ∙ r.bytes_eq) in
      let (ea, e2) = append_cancel _ _ (same_length p.fermi_account q.fermi_account) e1 in
      let (eo, e3) = append_cancel _ _ (same_length p.user_owner q.user_owner) e2 in
      let (ek, e4) = append_cancel s.k r.k (length-u8 k s.k_eq ∙ sym (length-u8 l r.k_eq)) e3 in
      let (et, em) =
        append_cancel s.t r.t
          (length-u8 (whole (pos perp_market_target)) s.t_eq
            ∙ sym (length-u8 (whole (pos perp_market_target)) r.t_eq))
          e4 in
      (
        λ i. record {
          group = to_bytes_injective p.group q.group eg i;
          fermi_account = to_bytes_injective p.fermi_account q.fermi_account ea i;
          user_owner = to_bytes_injective p.user_owner q.user_owner eo i;
        },
        u8_injective k l s.k_eq (r.k_eq ∙ ap ok (sym ek)),
        u16_injective m n s.m_eq (r.m_eq ∙ ap ok (sym em)),
      )

  -- The four parts of a V3 message behind its domain.
  record StepsV3 (i : IntentV3 PublicKey) (payload_hash bs : Bytes) : Type 0 where
    scope : Bytes
    slot : Bytes
    expires : Bytes
    id : Bytes
    scope_eq : scope_bytes W i.party i.kind i.market_index ≡ ok scope
    slot_eq : u64_to_le i.min_execute_slot ≡ ok slot
    expires_eq : u64_to_le i.expires_at_slot ≡ ok expires
    id_eq : u64_to_le i.client_order_id ≡ ok id
    bytes_eq :
        bs
        ≡ user_intent_domain
          ++ (scope ++ (payload_hash ++ (i.accounts_hash ++ (slot ++ (expires ++ id)))))

  message_v3_bytes-StepsV3 :
      (i : IntentV3 PublicKey) (payload_hash : Bytes) {bs : Bytes}
      → message_v3_bytes W i payload_hash ≡ ok bs
      → StepsV3 i payload_hash bs
  unfolding message_v3_bytes
  message_v3_bytes-StepsV3 i p h =
      from_bind (scope_bytes W i.party i.kind i.market_index) _ h λ scope es cs.
        from_bind (u64_to_le i.min_execute_slot) _ cs λ slot el cl.
          from_bind (u64_to_le i.expires_at_slot) _ cl λ expires ee ce.
            from_bind (u64_to_le i.client_order_id) _ ce λ id ei ci. record {
              scope = scope;
              slot = slot;
              expires = expires;
              id = id;
              scope_eq = es;
              slot_eq = el;
              expires_eq = ee;
              id_eq = ei;
              bytes_eq = sym (ok_injective ci);
            }

  -- Two intents that agree in everything a V3 message is to bind.
  pub record SameV3 (i j : IntentV3 PublicKey) : Type 0 where
    pub party : i.party ≡ j.party
    pub kind : i.kind ≡ j.kind
    pub market : i.market_index ≡ j.market_index
    pub payload_hash : sha256 i.payload ≡ sha256 j.payload
    pub accounts_hash : i.accounts_hash ≡ j.accounts_hash
    pub slot : to_big_int i.min_execute_slot ≡ to_big_int j.min_execute_slot
    pub expires : to_big_int i.expires_at_slot ≡ to_big_int j.expires_at_slot
    pub id : to_big_int i.client_order_id ≡ to_big_int j.client_order_id

  -- Two intents with 32-byte account hashes whose V3 messages have the same bytes before hashing
  -- agree in group, account, owner, kind, market, payload hash, account hash, both slots and client
  -- order id: a signature cannot be moved from one to another.
  pub message_v3-binds :
      (i j : IntentV3 PublicKey) {bs : Bytes}
      → length i.accounts_hash ≡ 32
      → length j.accounts_hash ≡ 32
      → message_v3_bytes W i (sha256 i.payload) ≡ ok bs
      → message_v3_bytes W j (sha256 j.payload) ≡ ok bs
      → SameV3 i j
  message_v3-binds i j li lj hi hj =
      let s = message_v3_bytes-StepsV3 i (sha256 i.payload) hi in
      let r = message_v3_bytes-StepsV3 j (sha256 j.payload) hj in
      let (_, e0) =
        append_cancel user_intent_domain user_intent_domain refl (sym s.bytes_eq ∙ r.bytes_eq) in
      let (es, e1) =
        append_cancel s.scope r.scope
          (length-scope i.party i.kind i.market_index s.scope_eq
            ∙ sym (length-scope j.party j.kind j.market_index r.scope_eq))
          e0 in
      let (ep, e2) =
        append_cancel (sha256 i.payload) (sha256 j.payload)
          (length-sha256 i.payload ∙ sym (length-sha256 j.payload)) e1 in
      let (ea, e3) = append_cancel i.accounts_hash j.accounts_hash (li ∙ sym lj) e2 in
      let (el, e4) =
        append_cancel s.slot r.slot
          (length-u64 i.min_execute_slot s.slot_eq ∙ sym (length-u64 j.min_execute_slot r.slot_eq))
          e3 in
      let (ee, ei) =
        append_cancel s.expires r.expires
          (length-u64 i.expires_at_slot s.expires_eq
            ∙ sym (length-u64 j.expires_at_slot r.expires_eq))
          e4 in
      let (hp, hk, hm) =
        scope_injective i.party j.party i.kind j.kind i.market_index j.market_index s.scope_eq
          (r.scope_eq ∙ ap ok (sym es)) in
      record {
        party = hp;
        kind = hk;
        market = hm;
        payload_hash = ep;
        accounts_hash = ea;
        slot =
            u64_injective i.min_execute_slot j.min_execute_slot s.slot_eq
              (r.slot_eq ∙ ap ok (sym el));
        expires =
            u64_injective i.expires_at_slot j.expires_at_slot s.expires_eq
              (r.expires_eq ∙ ap ok (sym ee));
        id = u64_injective i.client_order_id j.client_order_id s.id_eq (r.id_eq ∙ ap ok (sym ei));
      }
