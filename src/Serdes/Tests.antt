-- ===== src/Serdes/Tests.antt =====
-- Runs of driver/rpc_serdes.cpp.
use roc_vad.Prelude.{◌≡◌}
use roc_vad.Result.{ok}
use roc_vad.Serdes.Device.{device_info_from_rpc}
use roc_vad.Serdes.DeviceLaws.{carried_info, device_info_round}
use roc_vad.Serdes.Accept.{IsAccepted, device_info_from_rpc-IsAccepted}
use roc_vad.Serdes.Samples.{clock, clock-IsLossless, device, device-IsStorable, message, written}

device_info_round_example : device_info_from_rpc clock 0 message ≡ ok (carried_info device)
device_info_round_example =
    device_info_round clock clock-IsLossless 0 device message device-IsStorable written

device_info_from_rpc-IsAccepted_example : IsAccepted (carried_info device)
device_info_from_rpc-IsAccepted_example =
    device_info_from_rpc-IsAccepted clock 0 message (carried_info device)
      (device_info_round clock clock-IsLossless 0 device message device-IsStorable written)
