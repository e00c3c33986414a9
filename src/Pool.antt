-- ===== src/Pool.antt =====
-- The pool of gRPC connections, internal/service/grpc_pool.go. `C` is a connection; `state` is the
-- state that it is in at the time of a call. `new_client` is `grpc.NewClient`, `split_host_port` is
-- `net.SplitHostPort`, `atoi` and `decimal` convert between numbers and their decimal text.
use kairos_p2p_engine.Base.{
  sym, eq_refl, ℕ, ◌+◌, ◌≡◌, refl, ◌∙◌, Bool, true, false, Option, none, some, List, [], ◌∷◌, ◌++◌,
  Bytes, ◌==◌, eq_iff, lookup, insert, lookup-insert, Result, ok, err, arith, if◌then◌else◌,
  Bool-cases, Option-cases, inl, inr,
}

pub data ConnState : Type 0 where
  idle connecting ready transient_failure shutdown : ConnState

abbrev pub is_usable : ConnState → Bool
is_usable transient_failure = false
is_usable shutdown = false
is_usable _ = true

-- `grpcPool`, and the connections that were closed.
pub record Pool (C : Type 0) : Type 0 where
  pub conns : List (Bytes × C)
  pub closed : List C

pub data PoolError : Type 0 where
  bad_address bad_port client_failed : PoolError

-- `Delete` of a key that stands in the map once.
abbrev pub remove {ℓ} : {V : Type ℓ} → Bytes → List (Bytes × V) → List (Bytes × V)
remove k [] = []
remove k ((j, v) ∷ m) = if j == k then remove k m else (j, v) ∷ remove k m

lookup-remove {ℓ} :
    {V : Type ℓ} (k j : Bytes) (m : List (Bytes × V))
    → lookup j (remove k m) ≡ (if k == j then none else lookup j m)
lookup-remove k j [] = ground arith
lookup-remove k j ((i, v) ∷ m) =
    ground (arith, lookup-remove k j m, eq_iff i k, eq_iff i j, eq_iff k j)

-- What the caller gets, as an entry of the map.
abbrev pub entry_of : {C : Type 0} → Result PoolError C → Option C
entry_of (ok conn) = some conn
entry_of (err e) = none

module _ {C : Type 0} (state : C → ConnState) (new_client : Bytes → Option C)
    (split_host_port : Bytes → Option (Bytes × Bytes)) (atoi : Bytes → Option ℕ)
    (decimal : ℕ → Bytes) where
  -- From `net.SplitHostPort` on; the node's gRPC port is 1000 above its HTTP port.
  unfoldable pub dial : Pool C → Bytes → Pool C × Result PoolError C
  dial pool address = elim (split_host_port address) [
    | none ↦ (pool, err bad_address)
    | some (host, port_str) ↦ elim (atoi port_str) [
      | none ↦ (pool, err bad_port)
      | some port ↦ elim (new_client (host ++ (b':' ∷ decimal (port + 1000)))) [
        | none ↦ (pool, err client_failed)
        | some conn ↦ (record pool { conns = insert address conn pool.conns }, ok conn)
      ]
    ]
  ]

  unfoldable pub get_grpc_connection : Pool C → Bytes → Pool C × Result PoolError C
  get_grpc_connection pool address = elim (lookup address pool.conns) [
    | none ↦ dial pool address
    | some conn ↦
        if is_usable (state conn)
        then (pool, ok conn)
        else dial (record { conns = remove address pool.conns; closed = conn ∷ pool.closed })
            address
  ]

  dial-lookup :
      (pool : Pool C) (address j : Bytes)
      → lookup address pool.conns ≡ none
      → lookup j (dial pool address).0.conns
        ≡ (if address == j then entry_of (dial pool address).1 else lookup j pool.conns)
  unfolding dial
  dial-lookup pool address j h =
      let same : (address == j) ≡ true → lookup j pool.conns ≡ none =
        λ e. rw (sym ((eq_iff address j).0 e)) h in
      elim (Option-cases (split_host_port address)) [
        | inl e ↦ rw (e, dial) (ground (arith, same))
        | inr ((host, port_str), e) ↦
            rw (e, dial)
              (elim (Option-cases (atoi port_str)) [
                | inl f ↦ rw f (ground (arith, same))
                | inr (port, f) ↦
                    rw f
                      (elim (Option-cases (new_client (host ++ (b':' ∷ decimal (port + 1000))))) [
                        | inl g ↦ rw g (ground (arith, same))
                        | inr (conn, g) ↦ rw g (lookup-insert address j conn pool.conns)
                      ])
              ])
      ]

  -- Whatever the states of the connections are and whichever step fails: after a call the pool has
  -- for the address what the caller got, nothing after an error, and its other entries are as before.
  pub get_grpc_connection-lookup :
      (pool : Pool C) (address j : Bytes)
      → lookup j (get_grpc_connection pool address).0.conns ≡ (
          if address == j
          then entry_of (get_grpc_connection pool address).1
          else lookup j pool.conns)
  unfolding get_grpc_connection
  get_grpc_connection-lookup pool address j = elim (Option-cases (lookup address pool.conns)) [
    | inl e ↦ rw (e, get_grpc_connection) (dial-lookup pool address j e)
    | inr (conn, e) ↦ elim (Bool-cases (is_usable (state conn))) [
      | inl u ↦
          rw (e, get_grpc_connection)
            (rw u (
              let same : (address == j) ≡ true → lookup j pool.conns ≡ some conn =
                λ h. rw (sym ((eq_iff address j).0 h)) e in
              ground (arith, same)))
      | inr u ↦
          rw (e, get_grpc_connection)
            (rw u (
              dial-lookup
                (record { conns = remove address pool.conns; closed = conn ∷ pool.closed }) address
                j (lookup-remove address address pool.conns ∙ rw (eq_refl address) refl)
              ∙ ground (arith, lookup-remove address j pool.conns)))
    ]
  ]

-- `CloseAllGrpcConnections`
unfoldable pub close_all_grpc_connections : {C : Type 0} → Pool C → List (Bytes × C) → Pool C
close_all_grpc_connections pool [] = pool
close_all_grpc_connections pool ((key, conn) ∷ rest) =
    close_all_grpc_connections
      (record { conns = remove key pool.conns; closed = conn ∷ pool.closed }) rest
