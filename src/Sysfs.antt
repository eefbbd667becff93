-- ===== src/Sysfs.antt =====
-- src/cortex_forge_sysfs.c, which the build does not compile: the attributes of the device, each with
-- what its show function writes. The version is the build's.
use cortex_forge_driver.Base.{List, [], ◌∷◌}
use Prim.Native.String.{String, ◌++◌}

abbrev pub dla0_freq_show : String
dla0_freq_show = "0\n"

abbrev pub dla0_temp_show : String
dla0_temp_show = "0\n"

abbrev pub dla0_load_show : String
dla0_load_show = "0\n"

abbrev pub dla1_freq_show : String
dla1_freq_show = "0\n"

abbrev pub dla1_temp_show : String
dla1_temp_show = "0\n"

abbrev pub dla1_load_show : String
dla1_load_show = "0\n"

abbrev pub pva0_freq_show : String
pva0_freq_show = "0\n"

abbrev pub pva0_temp_show : String
pva0_temp_show = "0\n"

abbrev pub pva0_load_show : String
pva0_load_show = "0\n"

abbrev pub version_show : String → String
version_show drv_version = drv_version ++ "\n"

abbrev pub cortex_forge_attrs : String → List (String × String)
cortex_forge_attrs drv_version =
    ("dla0_freq", dla0_freq_show)
    ∷ ("dla0_temp", dla0_temp_show)
    ∷ ("dla0_load", dla0_load_show)
    ∷ ("dla1_freq", dla1_freq_show)
    ∷ ("dla1_temp", dla1_temp_show)
    ∷ ("dla1_load", dla1_load_show)
    ∷ ("pva0_freq", pva0_freq_show)
    ∷ ("pva0_temp", pva0_temp_show)
    ∷ ("pva0_load", pva0_load_show)
    ∷ ("version", version_show drv_version)
    ∷ []
