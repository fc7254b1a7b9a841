-- ===== src/Webhook/Subnets/Tests.antt =====
-- Runs of the admission of subnets.
use hybridnet.Base.{◌≡◌, refl, true, false, [], ◌∷◌, none, some, pos, contains}
use hybridnet.Net.{equal, to4, cidr_contains, network_number_and_mask, short, prefix_bits, mask_ip}
use hybridnet.Ipam.Subnet.Tests.{toy}
use hybridnet.Ipam.Subnet.{
  overlap, is_ipv6, contains_addr, not_below, not_above, is_gateway, new_subnet,
}
use hybridnet.Ipam.Validate.{canonicalize, validate}
use hybridnet.Api.Types.{
  SubnetObject, is_ipv6_subnet, is_private_subnet, is_not_v4, get_network_mode,
}
use hybridnet.Api.Range.{given_outside, validate_address_range, calculate_capacity, ip_to_int}
use hybridnet.Api.Transform.{transfer_subnet_for_ipam}
use hybridnet.Api.Tests.{toy_cidr, range, two_nodes}
use hybridnet.Webhook.Cluster.{Cluster, got, not_found, allowed}
use hybridnet.Webhook.Subnets.{subnet_create_validation}
use hybridnet.Webhook.Subnets.Laws.{Admitted, subnet_create_validation-Admitted}

abbrev new_one : SubnetObject
new_one = record {
  name = "s2";
  range = range;
  net_id = none;
  network = "n1";
  config = none;
  count = record { total = pos 0; used = pos 0; available = pos 0 };
  last_allocated_ip = "";
}

abbrev old_one : SubnetObject
old_one = record new_one {
  name = "s1";
  range = record range {
    start = "10.0.0.1";
    end = "10.0.0.1";
    gateway = "10.0.0.3";
    reserved_ips = [];
  };
}

abbrev cluster : Cluster
cluster = record {
  network = λ name. got two_nodes;
  networks = got (two_nodes ∷ []);
  subnet = λ name. not_found;
  subnets = got (old_one ∷ []);
  ip_instances = λ name. got [];
  remote_subnets = got [];
  remote_clusters = got [];
  dual_stack = false;
  multi_cluster = true;
}

admitted_run : subnet_create_validation toy toy_cidr cluster (some new_one) ≡ allowed
unfolding subnet_create_validation given_outside validate_address_range equal to4 cidr_contains
    network_number_and_mask short prefix_bits mask_ip is_ipv6_subnet is_private_subnet is_not_v4
    get_network_mode calculate_capacity ip_to_int canonicalize validate transfer_subnet_for_ipam
    new_subnet overlap is_ipv6 contains_addr not_below not_above is_gateway contains
admitted_run = refl

subnet_create_validation-Admitted_example : Admitted toy toy_cidr cluster new_one
subnet_create_validation-Admitted_example =
    subnet_create_validation-Admitted toy toy_cidr cluster new_one admitted_run
