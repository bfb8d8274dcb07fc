-- ===== src/Gateway/Examples.antt =====
-- Instances of the theorems on start-up and on the main loop.
use virtual_service_gateway.Common.{ℕ, ◌≡◌, refl, true, false, Option, some, [], ◌∷◌}
use virtual_service_gateway.Common.Faults.{ok}
use virtual_service_gateway.Gateway.{Gateway, Outcome, build, start_gateway, start_gateway_lem}
use virtual_service_gateway.Dpdk.PmdDriver.{init_eal, new_driver}
use virtual_service_gateway.Dpdk.Mempool.{init_mempool, new_manager, resize, store}

start_gateway_lem_example :
    (r : Option (Gateway ℕ)) × (start_gateway (λ log call. false) (some 7) 0 (λ i. i) ≡ ok r)
    × Outcome false (some 7) r
start_gateway_lem_example = start_gateway_lem (λ log call. false) (some 7) 0 (λ i. i)

abbrev started : Gateway ℕ
started =
    build 0 (λ i. i) (record { port_configs = []; eal_initialized = true })
      (record { mempools = some 7 ∷ []; cache_size = 256 })

starts : start_gateway (λ log call. false) (some 7) 0 (λ i. i) ≡ ok (some started)
unfolding start_gateway init_eal new_driver init_mempool new_manager resize store
starts = refl
