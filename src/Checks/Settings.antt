-- ===== src/Checks/Settings.antt =====
-- Concrete runs of the settings of the macOS capturer.
use xyzen_relay.Prelude.{◌≡◌, refl, true, false, some}
use xyzen_relay.Prelude.Int.{pos}
use xyzen_relay.Mac.{
  MacCapturer, Answers, done, set_failed, set_resolution_method, xz_capturer_set_resolution,
  xz_capturer_set_bitrate, set_resolution, set_bitrate_kbps, bitrate_kbps, resolution,
}
use xyzen_relay.Mac.Resolution.{resolution-set_resolution}

abbrev streaming : MacCapturer
streaming = record {
  width = pos 2560;
  height = pos 1440;
  fps = pos 30;
  current_bitrate_kbps = pos 8000;
  stream = true;
  encoder = true;
  current_display_id = 1;
}

abbrev granted : Answers
granted = record { property_set = true; updated = true; made = true }

resolution-set_resolution_example :
    resolution (set_resolution granted 100 9000 (some streaming)).1 ≡ (160, 4320)
unfolding set_resolution xz_capturer_set_resolution set_resolution_method
resolution-set_resolution_example = resolution-set_resolution granted 100 9000 (some streaming)

-- No encoder can be made for the new size. The call fails, and the same call again goes well, but there
-- is still no encoder.
abbrev no_encoder : Answers
no_encoder = record { property_set = true; updated = true; made = false }

abbrev left : MacCapturer
left = record streaming { width = pos 1920; height = pos 1080; encoder = false }

resolution-stuck :
    (set_resolution no_encoder 1920 1080 (some streaming) ≡ (set_failed, some left))
    × (set_resolution granted 1920 1080 (some left) ≡ (done, some left))
unfolding set_resolution xz_capturer_set_resolution set_resolution_method
resolution-stuck = (refl, refl)

-- A rate of 2 ^ 31 or more is negative to Swift, and becomes the lowest.
bitrate_wraps : bitrate_kbps (set_bitrate_kbps granted 3000000000 (some streaming)).1 ≡ 100
unfolding set_bitrate_kbps xz_capturer_set_bitrate bitrate_kbps
bitrate_wraps = refl
