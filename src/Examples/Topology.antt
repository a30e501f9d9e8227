-- ===== src/Examples/Topology.antt =====
-- The channels of a recorder, on concrete inputs.
use hik_hcnet_http_bridge.Common.{refl, true, pos, ◌==◌}
use hik_hcnet_http_bridge.Error.{Returns}
use hik_hcnet_http_bridge.Request.{ChannelType}
use hik_hcnet_http_bridge.Topology.{NvrChannelTopology, is_int, resolve}
use hik_hcnet_http_bridge.Topology.Resolution.{Serves, Answers, Is422, resolve-Serves}

-- A recorder with two analog channels from 1, the second switched off, and four digital ones from 33.
abbrev topology : NvrChannelTopology
topology = record {
  analog_start = pos 1;
  analog_count = pos 2;
  digital_start = pos 33;
  digital_count = pos 4;
  analog_enabled = λ index. index == 0;
  ip_parameter_config_read = true;
}

resolve-Serves_example :
    Returns
      (λ r. Serves 64 topology r × Answers topology (pos 3) ChannelType.digital_index r)
      Is422
      (resolve 64 topology (pos 3) ChannelType.digital_index)
unfolding is_int
resolve-Serves_example =
    resolve-Serves 64 topology (pos 3) ChannelType.digital_index
      (record { analog_end = refl; digital_start = refl; digital_end = refl })
