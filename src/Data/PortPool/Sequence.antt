-- ===== src/Data/PortPool/Sequence.antt =====
-- The external ports that a pool hands out, call by call.
use run_all_resource.Prelude.{
  ℕ, zero, suc, ◌+◌, ◌^◌, ◌≤◌, ◌<◌, ◌≡◌, refl, ap, ◌∙◌, List, [], ◌∷◌, ◌++◌, arith,
}
use run_all_resource.Data.PortPool.{K8sSettings, allocate_external_port, allocations}

-- `n` ports from `port` on, and `n` times "exhausted"
abbrev pub ports_from : ℕ → ℕ → List ℕ
ports_from port zero = []
ports_from port (suc n) = port ∷ ports_from (port + 1) n

abbrev pub zeros : ℕ → List ℕ
zeros zero = []
zeros (suc n) = 0 ∷ zeros n

exhausted :
    (m : ℕ) (r : K8sSettings)
    → r.tcp_udp_port_range_end < r.next_available_port
    → (allocations m r).0 ≡ zeros m
unfolding allocations allocate_external_port
exhausted zero r h = refl
exhausted (suc m) r h = ground (arith, exhausted m r h)

allocate_next :
    (r : K8sSettings)
    → r.next_available_port ≤ r.tcp_udp_port_range_end
    → r.tcp_udp_port_range_end + 1 < 2 ^ 32
    → allocate_external_port r
      ≡ (r.next_available_port, record r { next_available_port = r.next_available_port + 1 })
unfolding allocate_external_port
allocate_next r h small = ground arith

allocations_next :
    (n : ℕ) (r : K8sSettings)
    → r.next_available_port ≤ r.tcp_udp_port_range_end
    → r.tcp_udp_port_range_end + 1 < 2 ^ 32
    → (allocations (suc n) r).0
      ≡ r.next_available_port
        ∷ (allocations n (record r { next_available_port = r.next_available_port + 1 })).0
unfolding allocations
allocations_next n r h small =
    ap (λ (x : ℕ × K8sSettings). x.0 ∷ (allocations n x.1).0) (allocate_next r h small)

-- Where the range ends below the greatest uint32, so that the counter can pass the end without wrapping
-- around: while `n` ports are left, exactly these are handed out, each once and in order, and every
-- later call says that the pool is exhausted.
pub allocations_exact :
    (n m : ℕ) (r : K8sSettings)
    → r.next_available_port + n ≡ r.tcp_udp_port_range_end + 1
    → r.tcp_udp_port_range_end + 1 < 2 ^ 32
    → (allocations (n + m) r).0 ≡ ports_from r.next_available_port n ++ zeros m
allocations_exact zero m r h small =
    let same : 0 + m ≡ m = omega arith in rw same (exhausted m r (omega arith))
allocations_exact (suc n) m r h small =
    let same : suc n + m ≡ suc (n + m) = omega arith in
    rw same (
      allocations_next (n + m) r (omega arith) small
      ∙ ap (λ l. r.next_available_port ∷ l)
          (allocations_exact n m (record r { next_available_port = r.next_available_port + 1 })
            (omega arith) small))
