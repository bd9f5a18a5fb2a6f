-- ===== src/Process/Tests.antt =====
-- Runs of the search for the runtime, and of the check of one that has no cookie.
use gc_scope.Base.{ℕ, ◌≡◌, refl, true, some, [], ◌∷◌, ◌==◌, if◌then◌else◌, ◌+◌}
use gc_scope.Base.Text.{codes}
use gc_scope.Fixtures.Python312.{machine, images, mapping}
use gc_scope.Memory.{Machine, read_memory, read_u64}
use gc_scope.Process.{
  Images, check_interpreter_addresses, try_find_runtime, find_python_modules, section_of,
  validate_cookie, check_runtime, search_pid_and_children, max_depth,
}
use gc_scope.Process.Runtime.{IsCredible, check_runtime-IsCredible}
use gc_scope.Process.Search.{FoundBelow, search_pid_and_children-FoundBelow}

credible : check_runtime machine 7 4096 104 40 72 16 ≡ true
unfolding check_runtime read_u64 read_memory check_interpreter_addresses
credible = refl

check_runtime-IsCredible_example : IsCredible machine 7 4096 104 40 72 16
check_runtime-IsCredible_example = check_runtime-IsCredible machine 7 4096 104 40 72 16 credible

-- A launcher with one child, and an image whose section holds the cookie in both.
abbrev family : Machine ℕ
family = record machine {
  handle_of = λ pid. some pid;
  child_processes = λ pid. some (if pid == 7 then 8 ∷ [] else []);
  process_maps = λ pid. some (if pid == 8 then mapping ∷ [] else []);
  copy_address = λ handle addr size. some (codes "xdebugpy");
  read_file = λ path. some (0x7f ∷ 0x45 ∷ 0x4c ∷ 0x46 ∷ []);
}

abbrev sections : Images
sections = record images { find_section_in_elf = λ bytes base. some (base + 64) }

found_in_child : search_pid_and_children family sections 7 ≡ some (4160, "bin/python3.12")
unfolding search_pid_and_children try_find_runtime find_python_modules section_of validate_cookie
    read_memory
found_in_child = refl

search_pid_and_children-FoundBelow_example :
    FoundBelow family sections max_depth 7 (4160, "bin/python3.12")
search_pid_and_children-FoundBelow_example =
    search_pid_and_children-FoundBelow family sections 7 (4160, "bin/python3.12") found_in_child
