-- ===== src/NodePlugin/Edits/Nics.antt =====
-- Healthy of pkg/probe and editsFor, on NICs.
use llmfit_dra.Prelude.{◌≡◌, true, arith, eq_refl}
use llmfit_dra.Probe.{ProbeDevice, kind_nic, healthy}
use llmfit_dra.NodePlugin.Edits.{edits_for, keep_if}
use llmfit_dra.NodePlugin.Prepare.{among}

-- A NIC that the probe reports healthy is given its verbs node and the connection manager's node.
pub healthy-nic_nodes :
    (d : ProbeDevice)
    → d.kind ≡ kind_nic
    → (healthy d).0 ≡ true
    → (among d.dev_node (edits_for d).device_nodes ≡ true)
      × (among "/dev/infiniband/rdma_cm" (edits_for d).device_nodes ≡ true)
unfolding healthy edits_for keep_if
healthy-nic_nodes d h ok =
    (ground (arith, eq_refl d.dev_node), ground (arith, eq_refl "/dev/infiniband/rdma_cm"))
