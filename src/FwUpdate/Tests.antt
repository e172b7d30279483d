-- ===== src/FwUpdate/Tests.antt =====
-- The theorems about fw_update.c at a short upload, and what a truncated command does.
use rffe_uc_fw.Base.{ℕ, ◌≡◌, refl, List, [], ◌∷◌, pos, replicate, arith}
use rffe_uc_fw.FwUpdate.{got, failed, progmem_write, reply, command, closed, run, fw_update_server}
use rffe_uc_fw.FwUpdate.Safety.{AllSafe, fw_update_server-AllSafe}
use rffe_uc_fw.FwUpdate.Upload.{Page, upload_input, upload_actions, run-upload}

abbrev buffer : List ℕ
buffer = replicate 256 0

abbrev page : List ℕ
page = replicate 256 0x5A

abbrev pages : List Page
pages = record { addr = 0x48000; bytes = page } ∷ record { addr = 0x10000; bytes = page } ∷ []

fw_update_server-AllSafe_example :
    AllSafe (fw_update_server (pos 3) (pos 0) (pos 0) buffer ((pos 4, upload_input pages) ∷ []))
fw_update_server-AllSafe_example =
    fw_update_server-AllSafe (pos 3) (pos 0) (pos 0) buffer ((pos 4, upload_input pages) ∷ []) refl

run-upload_example :
    ((run command buffer (upload_input pages)).actions ≡ upload_actions pages)
    × ((run command buffer (upload_input pages)).ended ≡ closed)
run-upload_example = run-upload pages buffer (omega arith) refl

-- The page that lies in the application is refused.
upload_of_two :
    (run command buffer (upload_input pages)).actions
    ≡ progmem_write 0x48000 page ∷ reply b'1' ∷ reply b'0' ∷ []
unfolding run
upload_of_two = refl

-- Three bytes of an address and then an error: nothing is answered, and the connection ends at the
-- next command.
short_address :
    (run command buffer (got (b'w' ∷ []) ∷ got (0 ∷ 128 ∷ 4 ∷ []) ∷ failed 10 ∷ [])).actions ≡ []
unfolding run
short_address = refl
