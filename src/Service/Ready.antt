-- ===== src/Service/Ready.antt =====
-- ai_guardrail/aerorisk/main.py: the readiness check.
use aero_risk_ai.Base.{◌≡◌, refl, ◌∙◌, ap, String, Bool, true, false, ◌&&◌, arith}
use aero_risk_ai.Base.Outcome.{Outcome, ok, err}
use aero_risk_ai.Base.Float.{Float}
use aero_risk_ai.Observability.{Tracing}
use aero_risk_ai.Service.{
  Backend, Globals, Readiness, checked, with_kafka, with_clients, kafka_check, readiness_check,
}

abbrev pub is_ok : {A : Type 0} → Outcome A → Bool
is_ok (ok a) = true
is_ok (err e) = false

module _ {W V E R F : Type 0} ⦃fl : Float F⦄ (b : Backend W V E R) (t : Tracing W F) where
  checked-ready :
      (name : String) (r : Outcome (Unit {0})) (x : Readiness)
      → (checked b t name r x).ready ≡ (x.ready && is_ok r)
  checked-ready name (ok u) x = ground arith
  checked-ready name (err e) x = ground arith

  -- The three clients are tried whatever the others do, and the service is ready exactly if the
  -- consumer runs and all three answer.
  abbrev pub IsReadiness : Outcome Bool → W → Outcome Readiness × W → Type 0
  IsReadiness (err e) w out = out ≡ (err e, w)
  IsReadiness (ok running) w out =
      let (redis, w1) = b.ping_redis w in
      let (qdrant, w2) = b.get_collections w1 in
      let (postgres, w3) = b.get_postgres_client w2 in
      (r : Readiness) × (out ≡ (ok r, w3))
      × (r.ready ≡ (running && is_ok redis && is_ok qdrant && is_ok postgres))

  with_clients-IsReadiness : (k : Outcome Bool) (w : W) → IsReadiness k w (with_clients b t k w)
  with_clients-IsReadiness (err e) w = refl
  with_clients-IsReadiness (ok running) w =
      let (redis, w1) = b.ping_redis w in
      let (qdrant, w2) = b.get_collections w1 in
      let (postgres, w3) = b.get_postgres_client w2 in
      let r1 = checked b t "redis" redis (with_kafka b t running) in
      let r2 = checked b t "qdrant" qdrant r1 in
      (
        checked b t "postgres" postgres r2,
        refl,
        checked-ready "postgres" postgres r2
            ∙ ap (λ (x : Bool). x && is_ok postgres)
                (checked-ready "qdrant" qdrant r1
                  ∙ ap (λ (x : Bool). x && is_ok qdrant)
                      (checked-ready "redis" redis (with_kafka b t running))),
      )

  pub readiness_check-IsReadiness :
      (g : Globals) (w : W) → IsReadiness (kafka_check b t g w) w (readiness_check b t g w)
  unfolding readiness_check
  readiness_check-IsReadiness g w = with_clients-IsReadiness (kafka_check b t g w) w
