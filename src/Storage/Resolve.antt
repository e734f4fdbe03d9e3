-- ===== src/Storage/Resolve.antt =====
-- `_resolve_spec` of agent/handlers/storage.py: the agent's own check of the disks of a plan.
pub mod Sound
use nas_os.Common.{ℕ, String, ◌<>◌, Bool, Option, none, some, List, [], ◌∷◌, Result, ok, err, ◌>>=◌}
use nas_os.Common.{◌==◌, not, contains, string_eq, nat_eq, if◌then◌else◌}
use nas_os.Common.Dict
use nas_os.Common.Dict.{Dict}
use nas_os.Common.Text.{truthy, str}
use nas_os.Common.Errors.{Exc, rpc_exception}
use nas_os.Storage.Device.{NodeInfo, Nodes, flatten, StorageInventoryResult}
use nas_os.Storage.Guard.{shown}
use nas_os.Storage.Spec.{StoragePlanSpec}

-- `{node.serial: node for node in nodes if node.serial}`: the last node with a serial stays.
unfoldable pub index_node : NodeInfo → Dict String NodeInfo → Dict String NodeInfo
unfolding shown
index_node n found = if truthy n.serial then Dict.insert (shown n.serial) n found else found

unfoldable pub index_nodes : List NodeInfo → Dict String NodeInfo → Dict String NodeInfo
index_nodes [] found = found
index_nodes (n ∷ ns) found = index_nodes ns (index_node n found)

unfoldable pub by_serial : Nodes → Dict String NodeInfo
unfolding index_node index_nodes
by_serial disks = index_nodes (flatten disks) []

-- The size test: a serial with no recorded size passes.
unfoldable pub check_size : String → NodeInfo → Option ℕ → Result Exc NodeInfo
check_size serial node none = ok node
check_size serial node (some expected) =
    if node.size == expected
    then ok node
    else err (
        rpc_exception "size_mismatch" (
          "disk "
          <> (serial
              <> (" is now "
                  <> (str node.size
                      <> (" bytes, was " <> (str expected <> " when the plan was made")))))))

-- The tests that one serial goes through.
unfoldable pub check_disk : String → Option NodeInfo → List String → Option ℕ → Result Exc NodeInfo
unfolding check_size shown
check_disk serial none protected_serials expected =
    err (rpc_exception "device_missing" ("disk " <> (serial <> " is no longer present")))
check_disk serial (some node) protected_serials expected =
    if contains protected_serials serial
    then err (
        rpc_exception "device_protected"
          ("disk " <> (serial <> (" is now protected: " <> shown node.protected_reason))))
    else check_size serial node expected

module _ (nodes : Dict String NodeInfo) (protected_serials : List String)
    (sizes : Dict String ℕ) where
  -- The loop over `spec.disk_serials`: the resolved paths, or the first refusal.
  unfoldable pub resolve_paths : List String → Result Exc (List String)
  unfolding check_disk
  resolve_paths [] = ok []
  resolve_paths (serial ∷ serials) = do
    node ← check_disk serial (Dict.lookup serial nodes) protected_serials (Dict.lookup serial sizes)
    paths ← resolve_paths serials
    ok (node.path ∷ paths)

unfoldable pub resolve_spec :
    StoragePlanSpec
    → StorageInventoryResult
    → List String
    → Dict String ℕ
    → Result Exc StoragePlanSpec
unfolding resolve_paths by_serial
resolve_spec spec fresh protected_serials expected_sizes = do
  paths ← resolve_paths (by_serial fresh.disks) protected_serials expected_sizes spec.disk_serials
  ok (record spec { disk_paths = paths })
