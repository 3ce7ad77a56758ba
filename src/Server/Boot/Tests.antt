-- ===== src/Server/Boot/Tests.antt =====
-- A kernel whose calls succeed, and the start of server/main.c on it.
use linux_veda_4sensor_tcp_c.Prelude.{
  ◌≡◌, refl, arith, ℤ, pos, negsuc, ◌==ℤ◌, if◌then◌else◌, ltb, Option, none, some, [], ◌∷◌,
}
use linux_veda_4sensor_tcp_c.Process.{socket, open_file, readlink, dlopen, dlsym, Kernel}
use linux_veda_4sensor_tcp_c.Process.Text.{bytes_of}
use linux_veda_4sensor_tcp_c.Process.Files.{Object, file, meaning}
use linux_veda_4sensor_tcp_c.Process.Ends.{Ends}
use linux_veda_4sensor_tcp_c.Process.Simulated.{lowest, simulated, simulated-IsFresh}
use linux_veda_4sensor_tcp_c.Devices.Led.{led_init}
use linux_veda_4sensor_tcp_c.Devices.Buzzer.{buzzer_init}
use linux_veda_4sensor_tcp_c.Devices.Sensor.{sensor_init}
use linux_veda_4sensor_tcp_c.Devices.Segment.{segment_init}
use linux_veda_4sensor_tcp_c.Server.Text.{base_dir}
use linux_veda_4sensor_tcp_c.Server.State.{World, set_board}
use linux_veda_4sensor_tcp_c.Server.Accept.{
  initial_world, initial_board, init_devices, initialize_hardware,
}
use linux_veda_4sensor_tcp_c.Server.Boot.{Host}
use linux_veda_4sensor_tcp_c.Server.Boot.Daemon.{daemonize}
use linux_veda_4sensor_tcp_c.Server.Boot.Listener.{setup_server}
use linux_veda_4sensor_tcp_c.Server.Boot.Libraries.{load_libraries}
use linux_veda_4sensor_tcp_c.Server.Boot.Main.{boot}
use linux_veda_4sensor_tcp_c.Server.Boot.ListenLaws.{Listens, GivesUp, setup_server-Ends}
use linux_veda_4sensor_tcp_c.Server.Boot.StreamLaws.{IsSilent, daemonize-IsSilent}
use linux_veda_4sensor_tcp_c.Server.Boot.Symbols.{all_targets, TooLong}
use linux_veda_4sensor_tcp_c.Server.Boot.Faults.{Fails}
use linux_veda_4sensor_tcp_c.Server.Boot.LibraryLaws.{Assigned, load_libraries-Ends}
use linux_veda_4sensor_tcp_c.Server.Boot.MainLaws.{Reaches, IsUnready, boot-Ends}
use linux_veda_4sensor_tcp_c.Server.Boot.DeviceLaws.{Exits}
use linux_veda_4sensor_tcp_c.Server.Boot.Returns.{Works, Returns, boot-Returns}

-- The process that a terminal starts, and one whose standard input is closed.
abbrev terminal : ℤ → Option Object
terminal (pos n) = if ltb n 3 then some (file (bytes_of "/dev/tty1")) else none
terminal (negsuc n) = none

abbrev without_input : ℤ → Option Object
without_input fd = if fd ==ℤ pos 0 then none else terminal fd

abbrev host : Host
host = record {
  link = bytes_of "/home/pi/server/server";
  tty = bytes_of "/dev/tty1";
  timebuf = λ h. bytes_of "2024-01-01 00:00:00";
  strerror = λ e. bytes_of "error";
  setup = record { led = pos 0; buzzer = pos 0; sensor = pos 3; segment = pos 0 };
}

-- Behind the initialisation of the hardware.
abbrev started_world : World
started_world = set_board (init_devices host.setup initial_board).1 initial_world

hardware_starts : initialize_hardware host.setup initial_world ≡ some started_world
unfolding initialize_hardware led_init buzzer_init sensor_init segment_init
hardware_starts = refl

abbrev kernel : Kernel
kernel = simulated terminal

setup_server-Ends_example :
    Ends
      (Listens terminal kernel (simulated-IsFresh terminal) 8080 [])
      (GivesUp terminal kernel (simulated-IsFresh terminal) [])
      (setup_server kernel 8080 [])
setup_server-Ends_example = setup_server-Ends terminal kernel (simulated-IsFresh terminal) 8080 []

load_libraries-Ends_example :
    Ends
      (Assigned terminal kernel all_targets [])
      (Fails (TooLong (bytes_of "/home/pi/server")) [])
      (load_libraries kernel (bytes_of "/home/pi/server") [])
load_libraries-Ends_example =
    load_libraries-Ends terminal kernel (bytes_of "/home/pi/server") [] refl

boot-Ends_example :
    Ends (Reaches terminal host []) (Exits kernel (IsUnready host) []) (boot kernel host [])
boot-Ends_example = boot-Ends terminal kernel (simulated-IsFresh terminal) host [] refl

-- The socket comes to stand for nothing when it has the number 0.
abbrev fixed : Kernel
fixed h socket = pos 0
fixed h (open_file path) = pos 1
fixed h readlink = pos 20
fixed h (dlopen path) = pos 4096
fixed h (dlsym handle name) = pos 8192
fixed h _ = pos 0

fixed-Works : Works fixed
fixed-Works = record {
  of_readlink = λ h. refl;
  of_dlopen = λ h path. refl;
  of_dlerror = λ h. refl;
  of_socket = λ h. refl;
  of_reuse = λ h fd. refl;
  of_bind = λ h fd port. refl;
  of_listen = λ h fd n. refl;
  of_fork = λ h. refl;
  of_chdir = λ h path. refl;
  of_thread = λ h w. refl;
}

boot-Returns_example : Returns (boot fixed host [])
unfolding base_dir
boot-Returns_example =
    boot-Returns fixed host fixed-Works started_world [] (omega arith) hardware_starts

daemonize-IsSilent_example :
    Ends
      (λ _. IsSilent without_input fixed 0)
      (λ _ _. Unit)
      (daemonize fixed ((socket, pos 0) ∷ []))
daemonize-IsSilent_example =
    daemonize-IsSilent without_input fixed (λ g. refl) (λ g a b. refl) 0 ((socket, pos 0) ∷ [])
      (omega arith)

-- The listening socket that took the place of the closed standard input is gone behind `daemonize`.
socket_lost :
    meaning without_input (daemonize (simulated without_input) ((socket, pos 0) ∷ [])).1 (pos 0)
    ≡ some (file (bytes_of "/dev/null"))
unfolding daemonize meaning lowest
socket_lost = refl
