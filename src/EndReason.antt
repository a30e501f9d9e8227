-- ===== src/EndReason.antt =====
-- Why a stream ended: StreamEndReason and end_reason_name of
-- cpp-sdk-http-bridge-linux/src/main.cpp.
use hik_hcnet_http_bridge.Common.{Bool, true, false}
use hik_hcnet_http_bridge.Text.{Bytes, codes}

pub data StreamEndReason : Type 0 where
  active manual_cleanup playback_end playback_position_error queue_overflow : StreamEndReason
  sdk_data_timeout sdk_keep_alive_failed ffmpeg_exit ffmpeg_output_timeout : StreamEndReason
  client_write_timeout client_replaced server_stopped startup_failed stream_ended : StreamEndReason

abbrev pub end_reason_name : StreamEndReason → Bytes
end_reason_name manual_cleanup = codes "manual_cleanup"
end_reason_name playback_end = codes "playback_end"
end_reason_name playback_position_error = codes "playback_position_error"
end_reason_name queue_overflow = codes "queue_overflow"
end_reason_name sdk_data_timeout = codes "sdk_data_timeout"
end_reason_name sdk_keep_alive_failed = codes "sdk_keepalive_failed"
end_reason_name ffmpeg_exit = codes "ffmpeg_exit"
end_reason_name ffmpeg_output_timeout = codes "ffmpeg_output_timeout"
end_reason_name client_write_timeout = codes "client_write_timeout"
end_reason_name client_replaced = codes "client_replaced"
end_reason_name server_stopped = codes "server_stopped"
end_reason_name startup_failed = codes "startup_failed"
end_reason_name stream_ended = codes "stream_ended"
end_reason_name active = codes "active"

abbrev pub is_active : StreamEndReason → Bool
is_active active = true
is_active _ = false
