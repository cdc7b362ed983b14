-- ===== src/Endpoint/Replies.antt =====
-- ndn/endpoint/producer.go: what the producer replies to.
use containernet_ndn_dpdk.Shared.{
  ℕ, ◌≡◌, sym, ap, ◌⊎◌, true, some, List, to_byte, ok-injective, ok, >>=-eq-ok,
}
use containernet_ndn_dpdk.Lp.{LpL3}
use containernet_ndn_dpdk.SigInfo.{Signer, info_or_null}
use containernet_ndn_dpdk.Interest.{Interest}
use containernet_ndn_dpdk.Data.{Data, signed_portion}
use containernet_ndn_dpdk.Data.Checks.{can_satisfy, sign_data}
use containernet_ndn_dpdk.Endpoint.Producer.{
  made, reply_nack, ProducerOptions, Reply, data_reply, nack_reply, is_unsigned,
}

module _ (sha256 : List ℕ → List ℕ) (p : ProducerOptions) (lp : LpL3) (i : Interest) where
  -- The Data that is sent for one that the handler returns: that Data, or that Data signed.
  pub record IsSent (d' : Data) : Type 0 where
    pub d : Data
    pub returned : p.handler i ≡ made d
    pub satisfies : can_satisfy sha256 d i ≡ true
    pub same_or_signed :
        (d' ≡ d)
        ⊎ (signer : Signer) × (p.data_signer ≡ some signer)
          × (is_unsigned d.sig_info ≡ true)
          × (sign_data d signer ≡ ok d')

  abbrev pub IsReply : Reply → Type 0
  IsReply (data_reply l d') = (l ≡ lp) × IsSent d'
  IsReply (nack_reply l n) =
      (l.pit_token ≡ lp.pit_token)
      × (l.cong_mark ≡ lp.cong_mark)
      × (n.interest ≡ i)
      × (reason : ℕ) × (p.handler i ≡ reply_nack reason)
      × (n.reason ≡ to_byte reason)

  signed_fields :
      (d d' : Data) (signer : Signer)
      → sign_data d signer ≡ ok d'
      → (d'.name ≡ d.name) × (d'.freshness ≡ d.freshness)
  unfolding sign_data
  signed_fields d d' signer e =
      let ((si, ll_sign), _, e1) = >>=-eq-ok (signer d.name (info_or_null d.sig_info)) _ e in
      let (portion, _, e2) = >>=-eq-ok (signed_portion (record d { sig_info = some si })) _ e1 in
      let (sig, _, e3) = >>=-eq-ok (ll_sign portion) _ e2 in
      let same = sym (ok-injective e3) in
      (ap (λ (x : Data). x.name) same, ap (λ (x : Data). x.freshness) same)
