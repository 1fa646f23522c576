-- ===== src/Manifest.antt =====
-- native/dwrt-host/dwrt_probe_manifest.cpp and .hpp: the signatures of the functions that the host
-- looks for in server.dll. A text is the list of its bytes.
use dwrt.Prelude.{ℕ, Bool, true, false, List, [], ◌∷◌, codes}

-- `SignatureDescriptor`
pub record SignatureDescriptor : Type 0 where
  pub name : List ℕ
  pub module_name : List ℕ
  pub surface : List ℕ
  pub pattern : List ℕ
  pub expected_rva : ℕ
  pub required : Bool
  pub reference : List ℕ

-- `kDefaultProbeSignatures`
unfoldable pub default_probe_signatures : List SignatureDescriptor
default_probe_signatures =
    record {
      name = codes "CBaseEntity::TakeDamageOld";
      module_name = codes "server.dll";
      surface = codes "EntitySimulation/DamagePolicy";
      pattern =
          codes
            "40 55 41 54 41 55 41 56 41 57 48 81 EC ?? ?? ?? ?? 48 8D 6C 24 ?? 48 89 9D ?? ?? ?? ?? 45 33 ED";
      expected_rva = 0x00c6bcb0;
      required = true;
      reference = codes "Deadworks mem config + DWRT RE 2026-05-30";
    }
    ∷ record {
      name = codes "CEntityInstance::AcceptInput";
      module_name = codes "server.dll";
      surface = codes "EntityIo";
      pattern = codes "48 89 5C 24 ?? 48 89 74 24 ?? 57 48 83 EC ?? 49 8B F0 48 8B D9";
      expected_rva = 0x01f17910;
      required = true;
      reference = codes "Deadworks mem config + DWRT RE 2026-05-30";
    }
    ∷ record {
      name = codes "CEntityIOOutput::FireOutputInternal";
      module_name = codes "server.dll";
      surface = codes "EntityIo";
      pattern = codes "4C 89 4C 24 ?? 48 89 4C 24 ?? 53 56";
      expected_rva = 0x01f1d130;
      required = true;
      reference = codes "Deadworks mem config + DWRT RE 2026-05-30";
    }
    ∷ record {
      name = codes "CModifierProperty::AddModifier";
      module_name = codes "server.dll";
      surface = codes "EntitySimulation/Modifiers";
      pattern = codes "44 89 44 24 ?? 48 89 54 24 ?? 53 55 56 57 41 55";
      expected_rva = 0x014d5f80;
      required = true;
      reference = codes "Deadworks mem config + DWRT RE 2026-05-30";
    }
    ∷ record {
      name = codes "CEntitySystem::CreateEntityByName";
      module_name = codes "server.dll";
      surface = codes "MapEntities";
      pattern = codes "48 83 EC ?? 48 8B 0D ?? ?? ?? ?? 41 8B C0";
      expected_rva = 0x017c3630;
      required = true;
      reference = codes "Deadworks mem config + DWRT RE 2026-05-30";
    }
    ∷ record {
      name = codes "CEntitySystem::QueueSpawnEntity";
      module_name = codes "server.dll";
      surface = codes "MapEntities";
      pattern = codes "40 56 57 41 56 48 83 EC ?? F7 42";
      expected_rva = 0x01f0e000;
      required = true;
      reference = codes "Deadworks mem config + DWRT RE 2026-05-30";
    }
    ∷ record {
      name = codes "CEntitySystem::ExecuteQueuedCreation";
      module_name = codes "server.dll";
      surface = codes "MapEntities";
      pattern = codes "48 89 5C 24 ?? 57 48 81 EC ?? ?? ?? ?? FF 81 ?? ?? ?? ?? 48 8D 44 24";
      expected_rva = 0x01f06370;
      required = true;
      reference = codes "Deadworks mem config + DWRT RE 2026-05-30";
    }
    ∷ record {
      name = codes "CTakeDamageInfo::Ctor";
      module_name = codes "server.dll";
      surface = codes "DamagePolicy";
      pattern = codes "40 53 48 83 EC 50 F3 0F 10 84 24 80 00 00 00 48 8D 05";
      expected_rva = 0x01addf90;
      required = true;
      reference = codes "Deadworks mem config + DWRT RE 2026-05-30";
    }
    ∷ record {
      name = codes "CCitadelGameRules::BuildGameSessionManifest";
      module_name = codes "server.dll";
      surface = codes "GameRules/Resources";
      pattern =
          codes
            "48 89 54 24 ?? 48 89 4C 24 ?? 55 53 56 57 41 54 41 55 41 56 41 57 48 8D AC 24 ?? ?? ?? ?? 48 81 EC ?? ?? ?? ?? ?? ?? ?? 4C 8B FA";
      expected_rva = 0x008f7510;
      required = true;
      reference = codes "Deadworks mem config + DWRT RE 2026-05-30";
    }
    ∷ record {
      name = codes "CBasePlayerController::ProcessUsercmds";
      module_name = codes "server.dll";
      surface = codes "UsercmdPipeline";
      pattern = codes "48 8B C4 44 88 48 ?? 44 89 40 ?? 48 89 50 ?? 53";
      expected_rva = 0x0174aea0;
      required = true;
      reference = codes "Deadworks mem config + existing DWRT usercmd shadow path";
    }
    ∷ record {
      name = codes "CCitadelPlayerPawn::AbilityThink";
      module_name = codes "server.dll";
      surface = codes "Ability/TargetingProbe";
      pattern = codes "48 89 4C 24 ?? 55 53 56 41 55 41 57";
      expected_rva = 0x00a2e2b0;
      required = true;
      reference = codes "Deadworks mem config + DWRT RE 2026-05-30";
    }
    ∷ record {
      name = codes "TraceShape";
      module_name = codes "server.dll";
      surface = codes "Physics";
      pattern = codes "48 89 5C 24 20 48 89 4C 24 08 55 57 41 54 41 55 41 56 48 8D AC 24";
      expected_rva = 0x01803e50;
      required = true;
      reference = codes "Deadworks mem config + DWRT RE 2026-05-30";
    }
    ∷ record {
      name = codes "CBaseEntity::EmitSoundParams";
      module_name = codes "server.dll";
      surface = codes "EntitySimulation/Audio";
      pattern =
          codes
            "48 89 5C 24 ?? 48 89 74 24 ?? 48 89 7C 24 ?? 55 48 8B EC 48 81 EC ?? ?? ?? ?? 33 C0";
      expected_rva = 0x018cd460;
      required = false;
      reference = codes "Deadworks mem config + DWRT RE 2026-05-30";
    }
    ∷ record {
      name = codes "CitadelTargetFilter::FriendlyFire";
      module_name = codes "server.dll";
      surface = codes "TargetPolicy/FriendlyFire";
      pattern =
          codes
            "48 89 5C 24 ?? 48 89 6C 24 ?? 48 89 74 24 ?? 57 48 81 EC ?? ?? ?? ?? 48 8B DA 48 8B F9 BA FF FF FF FF 48 8D 0D";
      expected_rva = 0x018d9180;
      required = true;
      reference = codes "DWRT RE mp_friendlyfire usage 2026-05-31";
    }
    ∷ record {
      name = codes "CitadelTargetFilter::FriendlyFireCaller";
      module_name = codes "server.dll";
      surface = codes "TargetPolicy/FriendlyFire";
      pattern =
          codes
            "48 89 5C 24 ?? 48 89 6C 24 ?? 48 89 74 24 ?? 57 48 83 EC ?? 48 8B 02 48 8B E9 48 8B CA 49 8B F9 49 8B F0 48 8B DA FF 90 ?? ?? ?? ?? 83 F8 1A 75 04 B0 01 EB 11 4C 8B CF 4C 8B C6 48 8B D3 48 8B CD E8 ?? ?? ?? ??";
      expected_rva = 0x007839d0;
      required = true;
      reference = codes "DWRT RE caller of mp_friendlyfire filter 2026-05-31";
    }
    ∷ record {
      name = codes "CitadelTargetFilter::SecondaryFriendlyFireGate";
      module_name = codes "server.dll";
      surface = codes "TargetPolicy/FriendlyFire";
      pattern =
          codes
            "48 89 5C 24 ?? 48 89 74 24 ?? 57 48 83 EC ?? 49 8B D8 48 8B FA 48 8B F1 4D 85 C0 74 ?? 48 8B 01 FF 90 ?? ?? ?? ?? 83 F8 01 75 ?? BA FF FF FF FF 48 8D 0D ?? ?? ?? ?? E8 ?? ?? ?? ?? 48 85 C0 75 ?? 48 8B 05 ?? ?? ?? ?? 48 8B 40 08 80 38 00 75 ?? 48 3B DF 74 ?? 32 C0";
      expected_rva = 0x01aedb10;
      required = true;
      reference = codes "DWRT RE secondary mp_friendlyfire usage 2026-06-01";
    }
    ∷ record {
      name = codes "CEntityIdentity::IndexForEntityInstance";
      module_name = codes "server.dll";
      surface = codes "TargetPolicy/EntityBitset";
      pattern =
          codes
            "48 83 EC ?? 4C 8B 0D ?? ?? ?? ?? 4C 8B DA 48 8B 49 ?? 49 83 C1 ?? 48 85 C9 75 ?? C7 02 FF FF FF FF 48 8B C2 48 83 C4 ?? C3 48 89 1C 24 45 33 D2";
      expected_rva = 0x01f18bb0;
      required = true;
      reference = codes "DWRT RE target bitset identity classifier 2026-06-01";
    }
    ∷ []
