-- ===== src/Errors.antt =====
-- kernel/error.hpp: the error codes, and `WithError`. The file and the line that `MAKE_ERROR` records
-- are left out: no code reads them but to print them.
use hon_os.Prelude.{Bool, true, false}

pub data Code : Type 0 where
  success full empty no_enough_memory index_out_of_range host_controller_not_halted : Code
  invalid_slot_id port_not_connected invalid_endpoint_number transfer_ring_not_set : Code
  already_allocated not_implemented invalid_descriptor buffer_too_small unknown_device : Code
  no_corresponding_setup_stage transfer_failed invalid_phase unknown_xhci_speed_id no_waiter : Code
  no_pci_msi unknown_pixel_format no_such_task invalid_format frame_too_small invalid_file : Code
  is_directory no_such_entry free_type_error last_of_code : Code

-- `Error::operator bool`: an error is true unless it is `kSuccess`.
unfoldable pub is_error : Code → Bool
is_error success = false
is_error _ = true

pub record WithError {ℓ} (A : Type ℓ) : Type ℓ where
  pub value : A
  pub error : Code
