-- ===== src/Gateway/DepGraph/Content.antt =====
-- gateway/core/depgraph_adapter.go: the read-write set that a transaction is scheduled on.
use fabric_x_evm_lfx.Prelude.{
  Option, none, some, List, [], ◌∷◌, ◌++◌, map, Outcome, ok, err, ◌>>=◌, nat_eq, Bytes, bytes_eq,
}

-- `applicationpb.Tx` and its namespaces: what the adapter reads of them.
pub record ReadWrite : Type 0 where
  pub key : Bytes
  pub value : Bytes

pub record TxNamespace : Type 0 where
  pub ns_id : Bytes
  pub reads_only : List Bytes
  pub read_writes : List ReadWrite
  pub blind_writes : List Bytes

pub record Tx : Type 0 where
  pub namespaces : List TxNamespace

-- `kvrwset.KVRWSet` and `rwset.NsReadWriteSet`.
pub record KvRwSet : Type 0 where
  pub reads : List Bytes
  pub writes : List ReadWrite

pub record NsRwSet : Type 0 where
  pub namespace : Bytes
  pub rwset : Bytes

-- The protocol buffers of the SDK: a failed decoding is `none`.
pub record Wire (E : Type 0) : Type 0 where
  pub responses : E → List Bytes
  pub unmarshal_tx : Bytes → Option Tx
  pub unmarshal_payload : Bytes → Option Bytes
  pub unmarshal_action : Bytes → Option Bytes
  pub unmarshal_tx_rwset : Bytes → Option (List NsRwSet)
  pub unmarshal_kv_rwset : Bytes → Option KvRwSet

pub data ContentError : Type 0 where
  no_read_write_set : ContentError
  unmarshal_failed : ContentError

-- `stateKey`
unfoldable pub state_key : Bytes → Bytes → Bytes
state_key ns key = ns ++ 0 ∷ key

-- The keys of one namespace.
unfoldable pub namespace_keys : TxNamespace → List Bytes × List Bytes
unfolding state_key
namespace_keys ns =
    let both = map (λ rw. state_key ns.ns_id rw.key) ns.read_writes in
    (
      map (state_key ns.ns_id) ns.reads_only ++ both,
      both ++ map (state_key ns.ns_id) ns.blind_writes,
    )

-- `readWriteKeys`
abbrev keys_of : List TxNamespace → List Bytes × List Bytes
keys_of [] = ([], [])
keys_of (ns ∷ rest) =
    let (reads, writes) = namespace_keys ns in
    let (more_reads, more_writes) = keys_of rest in (reads ++ more_reads, writes ++ more_writes)

unfoldable pub read_write_keys : Tx → List Bytes × List Bytes
unfolding namespace_keys
read_write_keys tx = keys_of tx.namespaces

module _ {E : Type 0} (wire : Wire E) where
  -- The loop over the classic namespaces; one without a read or a write is left out.
  unfoldable pub classic_namespaces : List NsRwSet → Outcome ContentError (List TxNamespace)
  classic_namespaces [] = ok []
  classic_namespaces (ns ∷ rest) = elim (wire.unmarshal_kv_rwset ns.rwset) [
    | none ↦ err unmarshal_failed
    | some kv ↦
        let rws = map (λ k. record { key = k; value = [] }) kv.reads ++ kv.writes in
        do
          more ← classic_namespaces rest
          elim rws [
            | [] ↦ ok more
            | first ∷ others ↦ ok (
                record {
                  ns_id = ns.namespace;
                  reads_only = [];
                  read_writes = first ∷ others;
                  blind_writes = [];
                }
                ∷ more)
          ]
  ]

  -- The classic Fabric path of `txContent`.
  unfoldable pub classic_content : Bytes → Outcome ContentError Tx
  unfolding classic_namespaces
  classic_content payload = elim (wire.unmarshal_payload payload) [
    | none ↦ err unmarshal_failed
    | some extension ↦ elim (wire.unmarshal_action extension) [
      | none ↦ err unmarshal_failed
      | some results ↦ elim (wire.unmarshal_tx_rwset results) [
        | none ↦ err unmarshal_failed
        | some sets ↦ do
          namespaces ← classic_namespaces sets
          elim namespaces [
            | [] ↦ err no_read_write_set
            | ns ∷ others ↦ ok (record { namespaces = ns ∷ others })
          ]
      ]
    ]
  ]

  -- `txContent`
  unfoldable pub tx_content : E → Outcome ContentError Tx
  unfolding classic_content
  tx_content end = elim (wire.responses end) [
    | [] ↦ err no_read_write_set
    | [] ∷ others ↦ err no_read_write_set
    | (b ∷ bs) ∷ others ↦ elim (wire.unmarshal_tx (b ∷ bs)) [
      | none ↦ classic_content (b ∷ bs)
      | some tx ↦ elim tx.namespaces [ [] ↦ classic_content (b ∷ bs) | ns ∷ more ↦ ok tx ]
    ]
  ]
