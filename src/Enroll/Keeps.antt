-- ===== src/Enroll/Keeps.antt =====
-- What meshanics_enroll of lib/provision/enroll.c leaves as it was where the operations of its `Edge` do.
use mcu_sdk.Base.{ℕ, zero, suc, ◌≡◌, refl, ◌∙◌, Bool, true, false, not, Bytes}
use mcu_sdk.Provision.{Provisioning}
use mcu_sdk.Net.Balance.{view-if, view-elim}
use mcu_sdk.Enroll.{
  Edge, retry_loop, https_retry, key_text, claim_request, cert_of, identity_of, fetch_key, claim,
  meshanics_enroll,
}

-- The operations of an `Edge` leave a view as it was.
pub record EdgeKeeps {D V : Type 0} (edge : Edge D) (view : D → V) : Type 0 where
  pub keeps_gen : (id : Bytes) (d : D) → view (edge.gen_key_csr id d).1 ≡ view d
  pub keeps_claim_ca : (d : D) → view (edge.add_claim_ca d).1 ≡ view d
  pub keeps_identity : (cert key : Bytes) (d : D) → view (edge.add_identity cert key d).1 ≡ view d
  pub keeps_delete : (d : D) → view (edge.delete_credentials d) ≡ view d
  pub keeps_https :
      (mutual_tls : Bool) (request : Bytes) (d : D)
      → view (edge.https mutual_tls request d).1 ≡ view d

module _ {D V : Type 0} (edge : Edge D) (view : D → V) (keeps : EdgeKeeps edge view)
    (prov : Provisioning) where
  view-retry_loop :
      (attempts : ℕ) (mutual_tls : Bool) (request : Bytes) (d : D)
      → view (retry_loop edge attempts mutual_tls request d).1 ≡ view d
  unfolding retry_loop
  view-retry_loop zero mutual_tls request d = refl
  view-retry_loop (suc attempts) mutual_tls request d =
      let r = edge.https mutual_tls request d in
      let e = keeps.keeps_https mutual_tls request d in
      view-elim view (view d) r.0 _ _ (view-retry_loop attempts mutual_tls request r.1 ∙ e) (λ s. e)

  view-https_retry :
      (mutual_tls : Bool) (request : Bytes) (d : D)
      → view (https_retry edge mutual_tls request d).1 ≡ view d
  unfolding https_retry
  view-https_retry mutual_tls request d = view-retry_loop 20 mutual_tls request d

  view-fetch_key : (cert key : Bytes) (d : D) → view (fetch_key edge prov cert key d).1 ≡ view d
  unfolding fetch_key
  view-fetch_key cert key d =
      let a = edge.add_identity cert key d in
      let e = keeps.keeps_identity cert key d in
      let r = https_retry edge true (key_text edge prov) a.1 in
      let e2 = view-https_retry true (key_text edge prov) a.1 ∙ e in
      view-if view (view d) (not a.0) _ _ e (
        view-elim view (view d) (identity_of edge prov cert key r.0) _ _ e2
          (λ i. keeps.keeps_delete r.1 ∙ e2))

  view-claim : (id csr key : Bytes) (d : D) → view (claim edge prov id csr key d).1 ≡ view d
  unfolding claim
  view-claim id csr key d =
      let a = edge.add_claim_ca d in
      let e = keeps.keeps_claim_ca d in
      view-if view (view d) (not a.0) _ _ e (
        view-elim view (view d) (claim_request edge prov id csr) _ _ e (λ request.
          let r = https_retry edge false request a.1 in
          let e2 = view-https_retry false request a.1 ∙ e in
          view-elim view (view d) (cert_of edge prov r.0) _ _ e2
            (λ cert. view-fetch_key cert key r.1 ∙ e2)))

  pub view-meshanics_enroll : (d : D) → view (meshanics_enroll edge prov d).1 ≡ view d
  unfolding meshanics_enroll
  view-meshanics_enroll d =
      let m = edge.gen_key_csr (edge.device_id d) d in
      let e = keeps.keeps_gen (edge.device_id d) d in
      view-elim view (view d) m.0 _ _ e
        (λ (csr, key). view-claim (edge.device_id d) csr key m.1 ∙ e)
