-- ===== src/Shell/Overlays.antt =====
-- frontend/src/components/OnboardingTour.tsx and OfflineBanner.tsx.
pub mod Tour
pub mod Offline
