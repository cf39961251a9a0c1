-- ===== src/Cni/Command.antt =====
-- What the commands of pkg/cni/commands are given: their arguments, the codecs of the CNI types, and the waits
-- for the pod's FlatNetworkIP. Logging is left out.
use rancher_flat_network.Prelude.{Bool, true, false, List, Option, if◌then◌else◌, is_empty}
use rancher_flat_network.Net.{Bytes, Ip}
use rancher_flat_network.Types.{
  FlatNetworkIp, FlatNetworkSubnet, Error, not_found, ip_not_allocated, Result, ok, err,
}
use rancher_flat_network.Cni.Kernel
use rancher_flat_network.Cni.Kernel.{
  Kernel, Interface, History, M, ◌>>=◌, pure, perform, then_or_err,
}
use rancher_flat_network.Cni.Config.{NetConf}

-- skel.CmdArgs
pub record CmdArgs : Type 0 where
  pub netns : Bytes
  pub if_name : Bytes
  pub args : Bytes
  pub path : Bytes
  pub stdin_data : Bytes

-- The result of an earlier Add, as it is handed back: the interfaces.
pub record PrevResult : Type 0 where
  pub interfaces : List Interface

pub record Codec : Type 0 where
  -- logger.Setup
  pub set_up : Option Error
  -- loadCNINetConf
  pub load_conf : Bytes → Result NetConf
  -- The name and the namespace of the pod
  pub load_args : Bytes → Result (Bytes × Bytes)
  -- kubeclient.GetK8sClient
  pub connected : Bytes → Option Error
  pub encode : NetConf → Result Bytes
  -- The addresses in what the IPAM plugin prints
  pub addresses_of : Bytes → Result (List Ip)
  -- parsePrevResult and NewResultFromResult
  pub parse_prev_result : NetConf → Bytes → Result PrevResult
  -- ip.ValidateExpectedInterfaceIPs and ip.ValidateExpectedRoute
  pub ips_validated : History → Bytes → PrevResult → Option Error
  pub routes_validated : History → PrevResult → Option Error
  -- Status.Addr of the object that the client returns beside an error
  pub left_address : History → Ip

unfoldable pub is_not_found : Error → Bool
is_not_found not_found = true
is_not_found _ = false

unfoldable pub should_retry_on_flat_network_ip : Error → Bool
should_retry_on_flat_network_ip not_found = true
should_retry_on_flat_network_ip ip_not_allocated = true
should_retry_on_flat_network_ip _ = false

module _ (k : Kernel) where
  unfoldable pub read_ip : Bytes → Bytes → M (Result FlatNetworkIp)
  read_ip namespace name = perform (Kernel.get_ip namespace name) (λ h. k.ip_at h namespace name)

  unfoldable pub read_subnet : Bytes → M (Result FlatNetworkSubnet)
  read_subnet name = perform (Kernel.get_subnet name) (λ h. k.subnet_at h name)

  -- One round of the wait of Add.
  unfoldable pub allocated_ip : Bytes → Bytes → M (Result FlatNetworkIp)
  unfolding read_ip
  allocated_ip namespace name = do
    g ← read_ip namespace name
    then_or_err g
        (λ ip. if is_empty ip.status.addr then pure (err ip_not_allocated) else pure (ok ip))

  unfoldable pub wait_for_ip : Bytes → Bytes → M (Result FlatNetworkIp)
  unfolding allocated_ip should_retry_on_flat_network_ip
  wait_for_ip namespace name =
      k.retry_on_error FlatNetworkIp should_retry_on_flat_network_ip (allocated_ip namespace name)
