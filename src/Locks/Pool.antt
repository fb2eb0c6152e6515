-- ===== src/Locks/Pool.antt =====
-- The pool of `DeploymentLockService`: made when `tryAcquire` first wants it, ended with the module.
use postgres_pipeline_orches.Common.{
  ℕ, ◌+◌, ◌-◌, ◌≡◌, Bool, true, false, List, [], ◌∷◌, arith, if◌then◌else◌,
}

-- `pool` tells whether the field is set, and `open_pools` counts the pools that are not ended.
pub record Pools : Type 0 where
  pub pool : Bool
  pub open_pools : ℕ

abbrev pub get_pool : Pools → Pools
get_pool s = record { pool = true; open_pools = if s.pool then s.open_pools else s.open_pools + 1 }

abbrev pub on_module_destroy : Pools → Pools
on_module_destroy s = record {
  pool = false;
  open_pools = if s.pool then s.open_pools - 1 else s.open_pools;
}

pub data PoolCall : Type 0 where
  wanted destroyed : PoolCall

abbrev pub pool_call : PoolCall → Pools → Pools
pool_call wanted s = get_pool s
pool_call destroyed s = on_module_destroy s

unfoldable pub pool_calls : List PoolCall → Pools → Pools
pool_calls [] s = s
pool_calls (c ∷ cs) s = pool_calls cs (pool_call c s)

-- The pool that the field has is the only one.
abbrev pub HasOnePool : Pools → Type 0
HasOnePool s = s.open_pools ≡ (if s.pool then 1 else 0)

call-HasOnePool : (c : PoolCall) (s : Pools) → HasOnePool s → HasOnePool (pool_call c s)
call-HasOnePool wanted s h = ground (arith, h)
call-HasOnePool destroyed s h = ground (arith, h)

-- Calls of `tryAcquire` and ends of the module, in any order, leave at most one pool open.
pub calls-HasOnePool :
    (cs : List PoolCall) (s : Pools) → HasOnePool s → HasOnePool (pool_calls cs s)
unfolding pool_calls
calls-HasOnePool [] s h = h
calls-HasOnePool (c ∷ cs) s h = calls-HasOnePool cs (pool_call c s) (call-HasOnePool c s h)
