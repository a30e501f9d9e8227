-- ===== src/Examples/Device.antt =====
-- A session with a recorder, on concrete inputs.
use hik_hcnet_http_bridge.Common.{◌≡◌, refl, true, false, [], ◌∷◌, none, some}
use hik_hcnet_http_bridge.Error.{ok}
use hik_hcnet_http_bridge.EndReason.{playback_end, queue_overflow}
use hik_hcnet_http_bridge.MediaQueue.{closes}
use hik_hcnet_http_bridge.Device.{
  Answers as DeviceAnswers, HcSession, new_session, DeviceConfig, StartAnswers, Login, start, stop,
}
use hik_hcnet_http_bridge.Device.Release.{Closed, stop-start_Closed}
use hik_hcnet_http_bridge.Device.Stream.{Meanwhile, streamdata, accept_data, accept_data_overwrites}
use hik_hcnet_http_bridge.Examples.Queue.{queue, five}
use hik_hcnet_http_bridge.Examples.Request.{request}

abbrev pub config : DeviceConfig
config = record {
  max_channum_v30 = 64;
  read_video_codec_from_device = true;
  realplay_keyframe_interval_frames = 25;
}

-- The recorder answers, but has no stream for the channel.
abbrev pub answers : DeviceAnswers
answers = record {
  checks = λ _. none;
  probe = ok tt;
  login = Login.accepted 5;
  device = record {
    start_chan = 1;
    chan_num = 0;
    start_digital_chan = 33;
    ip_chan_num = 8;
    high_digital_chan_num = 0;
  };
  ip_config = none;
  compression = none;
}

abbrev pub no_stream : StartAnswers
no_stream = record { checks = λ _. none; opened = none; callback_set = true; controls = λ _. true }

stop-start_Closed_example :
    Closed request.option
      (stop request (start config request answers answers no_stream [] (new_session 1024)).0).calls
stop-start_Closed_example = stop-start_Closed config request 1024 answers answers no_stream [] tt

abbrev running : HcSession
running = record (new_session 4) { user = some 5; handle = some 2 }

abbrev calm : Meanwhile
calm = record { waits = []; ended = none }

-- Its queue is full.
abbrev full : HcSession
full = record running { queue = record queue { limit = 6 } }

accept_data_overwrites_example :
    (accept_data streamdata five
      (record {
        waits = record { expired = false; others = closes ∷ [] } ∷ [];
        ended = some playback_end;
      })
      full).end_reason
    ≡ queue_overflow
unfolding new_session
accept_data_overwrites_example =
    accept_data_overwrites streamdata five playback_end full refl refl refl refl refl
